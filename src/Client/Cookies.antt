-- ===== src/Client/Cookies.antt =====
-- `getCsrfToken` of frontend/src/lib/api.ts: /(^| )XSRF-TOKEN=([^;]+)/ on `document.cookie`.
use video_calling.Base.{Option, none, some, [], ◌∷◌, if◌then◌else◌, ◌==◌, or_option}
use video_calling.Database.{Text}

-- The rest of a text that begins with `prefix`.
abbrev pub after_prefix : (prefix : Text) → Text → Option Text
after_prefix [] text = some text
after_prefix (p ∷ ps) [] = none
after_prefix (p ∷ ps) (c ∷ cs) = let rest = after_prefix ps cs in if c == p then rest else none

abbrev pub before_semicolon : Text → Text
before_semicolon [] = []
before_semicolon (c ∷ cs) = let rest = before_semicolon cs in if c == b';' then [] else c ∷ rest

-- 'XSRF-TOKEN='
abbrev pub xsrf_prefix : Text
xsrf_prefix = b'X' ∷ b'S' ∷ b'R' ∷ b'F' ∷ b'-' ∷ b'T' ∷ b'O' ∷ b'K' ∷ b'E' ∷ b'N' ∷ b'=' ∷ []

-- `[^;]+` needs a character.
abbrev pub some_text : Text → Option Text
some_text [] = none
some_text (c ∷ cs) = some (c ∷ cs)

abbrev pub value_of : Option Text → Option Text
value_of none = none
value_of (some text) = some_text (before_semicolon text)

abbrev pub match_here : Text → Option Text
match_here text = value_of (after_prefix xsrf_prefix text)

-- The first match after a blank.
abbrev pub match_later : Text → Option Text
match_later [] = none
match_later (c ∷ cs) =
    let rest = match_later cs in if c == 32 then or_option (match_here cs) rest else rest

unfoldable pub get_csrf_token : Text → Option Text
get_csrf_token cookie = or_option (match_here cookie) (match_later cookie)
