-- ===== src/Agent/Runners/Exclusive.antt =====
-- One run at a time, and none after Close.
use heartpost.Common.{ℕ, ◌≡◌, ==_iff, sym, ◌∙◌, true, false, some, arith, some_injective, ◌⊎◌}
use heartpost.Agent.Runners.{
  idle, working, ended, Process, at_start, Step, refuse_closed, refuse_started, enter, lose, win,
  unlock, finish, close_idle, close_started, close_ended, Reach, here, next,
}

-- A runner whose run is under way is the active one, and one that Close has answered is closed and
-- not between its start and its end.
pub record IsSound (p : Process) (i : ℕ) : Type 0 where
  pub holds_active : (p.runners i).phase ≡ working → p.active ≡ some i
  pub started : (p.runners i).is_started ≡ false → (p.runners i).phase ≡ idle
  pub begun : (p.runners i).phase ≡ idle → (p.runners i).is_started ≡ false
  pub shut : (p.runners i).is_shut ≡ true → (p.runners i).is_closed ≡ true
  pub over :
      (p.runners i).is_shut ≡ true → ((p.runners i).phase ≡ idle) ⊎ ((p.runners i).phase ≡ ended)

Step-IsSound : {p q : Process} → Step p q → ((i : ℕ) → IsSound p i) → (i : ℕ) → IsSound q i
Step-IsSound (refuse_closed i h) v j = v j
Step-IsSound (refuse_started i h) v j = v j
Step-IsSound (enter i c s) v j = let vi = v i in let vj = v j in ground (arith, ==_iff i j)
Step-IsSound (lose i k e a) v j = let vi = v i in let vj = v j in ground (arith, ==_iff i j)
Step-IsSound (win i e a) v j = let vi = v i in let vj = v j in ground (arith, ==_iff i j)
Step-IsSound (unlock i e) v j = let vi = v i in let vj = v j in ground (arith, ==_iff i j)
Step-IsSound (finish i e) v j = let vi = v i in let vj = v j in ground (arith, ==_iff i j)
Step-IsSound (close_idle i s) v j = let vi = v i in let vj = v j in ground (arith, ==_iff i j)
Step-IsSound (close_started i s) v j = let vi = v i in let vj = v j in ground (arith, ==_iff i j)
Step-IsSound (close_ended i e) v j = let vi = v i in let vj = v j in ground (arith, ==_iff i j)

start-IsSound : (i : ℕ) → IsSound at_start i
start-IsSound i = ground arith

Reach-IsSound : {p q : Process} → Reach p q → ((i : ℕ) → IsSound p i) → (i : ℕ) → IsSound q i
Reach-IsSound here v = v
Reach-IsSound (next r s) v = Step-IsSound s (Reach-IsSound r v)

Step-shut :
    {p q : Process}
    → Step p q
    → (i : ℕ) → (p.runners i).is_shut ≡ true
    → (q.runners i).is_shut ≡ true
Step-shut (refuse_closed i h) j e = e
Step-shut (refuse_started i h) j e = e
Step-shut (enter i c s) j e = ground (arith, ==_iff i j)
Step-shut (lose i k h a) j e = ground (arith, ==_iff i j)
Step-shut (win i h a) j e = ground (arith, ==_iff i j)
Step-shut (unlock i h) j e = ground (arith, ==_iff i j)
Step-shut (finish i h) j e = ground (arith, ==_iff i j)
Step-shut (close_idle i s) j e = ground (arith, ==_iff i j)
Step-shut (close_started i s) j e = ground (arith, ==_iff i j)
Step-shut (close_ended i h) j e = ground (arith, ==_iff i j)

Reach-shut :
    {p q : Process}
    → Reach p q
    → (i : ℕ) → (p.runners i).is_shut ≡ true
    → (q.runners i).is_shut ≡ true
Reach-shut here i e = e
Reach-shut (next r s) i e = Step-shut s i (Reach-shut r i e)

-- However the calls of Run and Close interleave, two runners that work at the same time are one.
pub runs_exclude :
    {p : Process} (i j : ℕ)
    → Reach at_start p
    → (p.runners i).phase ≡ working
    → (p.runners j).phase ≡ working
    → i ≡ j
runs_exclude i j r a b =
    let v = Reach-IsSound r start-IsSound in
    some_injective i j (sym ((v i).holds_active a) ∙ (v j).holds_active b)

-- Once Close has returned nil for a runner, its run does not go on and never starts: from then on it
-- is either before its start or after its end, and closed.
pub shut_for_good :
    {p q : Process} (i : ℕ)
    → Reach at_start p
    → (p.runners i).is_shut ≡ true
    → Reach p q
    → ((q.runners i).is_closed ≡ true)
      × (((q.runners i).phase ≡ idle) ⊎ ((q.runners i).phase ≡ ended))
shut_for_good i r e s =
    let v = Reach-IsSound s (Reach-IsSound r start-IsSound) i in
    let still = Reach-shut s i e in (v.shut still, v.over still)
