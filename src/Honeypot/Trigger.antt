-- ===== src/Honeypot/Trigger.antt =====
-- honeypotserver/server.go: ClassifyTrigger. `lower` is unicode.ToLower, which strings.ToLower maps.
use heartpost.Common.{ℕ, Bool, false, ◌&&◌, ◌||◌, not, List, [], ◌∷◌, map, if◌then◌else◌}
use heartpost.Common.Text.{Text, codes, has_prefix, is_empty}

-- strings.Contains
unfoldable pub contains_text : Text → Text → Bool
contains_text [] needle = has_prefix [] needle
contains_text (c ∷ s) needle = has_prefix (c ∷ s) needle || contains_text s needle

-- containsAny
unfoldable pub contains_any : Text → List Text → Bool
contains_any s [] = false
contains_any s (needle ∷ needles) = contains_text s needle || contains_any s needles

abbrev pub backdoor_needles : List Text
backdoor_needles =
    codes "webshell"
    ∷ codes "c99"
    ∷ codes "r57"
    ∷ codes "cmd.php"
    ∷ codes "shell.php"
    ∷ codes "wso.php"
    ∷ []

abbrev pub query_needles : List Text
query_needles =
    codes "union+select"
    ∷ codes "union select"
    ∷ codes "select%20"
    ∷ codes "../"
    ∷ codes "%2e%2e"
    ∷ codes "etc/passwd"
    ∷ codes "<script"
    ∷ codes "%3cscript"
    ∷ []

abbrev pub wordpress_needles : List Text
wordpress_needles = codes "wp-admin" ∷ codes "wp-login" ∷ codes "xmlrpc.php" ∷ []

abbrev pub db_needles : List Text
db_needles = codes "phpmyadmin" ∷ codes "phpma" ∷ codes "adminer" ∷ codes "mysqladmin" ∷ []

abbrev pub framework_needles : List Text
framework_needles =
    codes "vendor/phpunit"
    ∷ codes "phpunit"
    ∷ codes "/vendor/"
    ∷ codes "laravel"
    ∷ codes "thinkphp"
    ∷ []

abbrev pub dotfile_needles : List Text
dotfile_needles = codes "/.env" ∷ codes "/.git" ∷ codes "/.svn" ∷ codes "/.htaccess" ∷ []

abbrev pub microsoft_needles : List Text
microsoft_needles = codes "autodiscover" ∷ codes ".aspx" ∷ codes "owa/" ∷ codes "exchange" ∷ []

-- The trigger of a path and a query in lower case.
unfoldable pub trigger_of : Text → Text → Text
unfolding contains_any
trigger_of s q =
    if contains_any s backdoor_needles
    then codes "backdoor"
    else if not (is_empty q) && contains_any q query_needles
    then codes "query_string"
    else if contains_any s wordpress_needles
    then codes "wordpress"
    else if contains_any s db_needles
    then codes "db_tool"
    else if contains_any s framework_needles
    then codes "framework"
    else if contains_any s dotfile_needles
    then codes "dotfile"
    else if contains_any s microsoft_needles
    then codes "microsoft"
    else codes "other"

-- ClassifyTrigger
unfoldable pub classify_trigger : (ℕ → ℕ) → Text → Text → Text
unfolding trigger_of
classify_trigger lower path query = trigger_of (map lower path) (map lower query)
