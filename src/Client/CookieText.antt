-- ===== src/Client/CookieText.antt =====
-- `getCsrfToken` reads back what stands in `document.cookie`, the cookies `name=value` separated by a
-- semicolon and a blank.
use video_calling.Base.{
  ℕ, ◌≡◌, refl, ap, ◌∙◌, arith, Bool, true, false, ◌&&◌, Option, none, some, List, [], ◌∷◌, ◌++◌,
  if◌then◌else◌, ◌==◌, or_option, All, Bool-cases, inl, inr,
}
use video_calling.Database.{Text}
use video_calling.Client.Cookies.{
  after_prefix, before_semicolon, some_text, value_of, match_here, match_later, get_csrf_token,
}

pub record Cookie : Type 0 where
  pub name : Text
  pub value : Text

abbrev pub HasNot : (c : ℕ) → ℕ → Type 0
HasNot c x = (x == c) ≡ false

-- A name has no equals sign and no blank, a value no semicolon and no blank.
abbrev pub IsCookie : Cookie → Type 0
IsCookie c =
    All (HasNot b'=') c.name
    × All (HasNot 32) c.name
    × All (HasNot b';') c.value
    × All (HasNot 32) c.value

abbrev pub with_value : Cookie → Text → Text
with_value c rest = c.name ++ b'=' ∷ (c.value ++ rest)

-- `document.cookie`
abbrev pub render : Cookie → List Cookie → Text
render c [] = with_value c []
render c (next ∷ cs) = with_value c (b';' ∷ 32 ∷ render next cs)

abbrev pub same_text : Text → Text → Bool
same_text [] [] = true
same_text (x ∷ xs) (y ∷ ys) = x == y && same_text xs ys
same_text _ _ = false

-- 'XSRF-TOKEN'
abbrev pub xsrf_name : Text
xsrf_name = b'X' ∷ b'S' ∷ b'R' ∷ b'F' ∷ b'-' ∷ b'T' ∷ b'O' ∷ b'K' ∷ b'E' ∷ b'N' ∷ []

-- The value of a cookie, if it is the one that is looked for and not empty.
abbrev pub token_of : Cookie → Option Text
token_of c = if same_text c.name xsrf_name then some_text c.value else none

abbrev pub first_token : Cookie → List Cookie → Option Text
first_token c [] = token_of c
first_token c (next ∷ cs) = or_option (token_of c) (first_token next cs)

after_prefix-name :
    (wanted name rest : Text)
    → All (HasNot b'=') wanted
    → All (HasNot b'=') name
    → after_prefix (wanted ++ b'=' ∷ []) (name ++ b'=' ∷ rest)
      ≡ (if same_text name wanted then some rest else none)
after_prefix-name [] [] rest hw hn = refl
after_prefix-name [] (n ∷ ns) rest hw hn = ground (arith, hn.0)
after_prefix-name (w ∷ ws) [] rest hw hn = ground (arith, hw.0)
after_prefix-name (w ∷ ws) (n ∷ ns) rest hw hn =
    ground (arith, after_prefix-name ws ns rest hw.1 hn.1)

before_semicolon-end :
    (value : Text) → All (HasNot b';') value → before_semicolon (value ++ []) ≡ value
before_semicolon-end [] h = refl
before_semicolon-end (c ∷ cs) h = rw (h.0, before_semicolon-end cs h.1) refl

before_semicolon-stop :
    (value rest : Text) → All (HasNot b';') value → before_semicolon (value ++ b';' ∷ rest) ≡ value
before_semicolon-stop [] rest h = refl
before_semicolon-stop (c ∷ cs) rest h = rw (h.0, before_semicolon-stop cs rest h.1) refl

match_here-cookie :
    (c : Cookie) (rest : Text)
    → IsCookie c
    → before_semicolon (c.value ++ rest) ≡ c.value
    → match_here (with_value c rest) ≡ token_of c
match_here-cookie c rest ok stop =
    let plain : All (HasNot b'=') xsrf_name =
      (refl, (refl, (refl, (refl, (refl, (refl, (refl, (refl, (refl, (refl, tt)))))))))) in
    ap value_of (after_prefix-name xsrf_name c.name (c.value ++ rest) plain ok.0)
    ∙ elim (Bool-cases (same_text c.name xsrf_name)) [
      | inl same ↦ rw (same, stop) refl
      | inr other ↦ rw other refl
    ]

match_later-skip :
    (text rest : Text) → All (HasNot 32) text → match_later (text ++ rest) ≡ match_later rest
match_later-skip [] rest h = refl
match_later-skip (c ∷ cs) rest h = rw (h.0) (match_later-skip cs rest h.1)

-- A cookie has no blank, so that nothing is found inside it.
match_later-cookie :
    (c : Cookie) (rest : Text) → IsCookie c → match_later (with_value c rest) ≡ match_later rest
match_later-cookie c rest ok =
    match_later-skip c.name (b'=' ∷ (c.value ++ rest)) ok.1 ∙ match_later-skip c.value rest ok.3

-- The client finds the first cookie XSRF-TOKEN that is not empty, wherever it stands among the
-- others, and no other: the value that it sends in the header is the value of that cookie.
pub get_csrf_token-render :
    (c : Cookie) (cs : List Cookie)
    → IsCookie c
    → All IsCookie cs
    → get_csrf_token (render c cs) ≡ first_token c cs
unfolding get_csrf_token
get_csrf_token-render c [] ok oks =
    rw (match_here-cookie c [] ok (before_semicolon-end c.value ok.2), match_later-cookie c [] ok)
      (or_none (token_of c))
  where
    or_none : (o : Option Text) → or_option o none ≡ o
    or_none none = refl
    or_none (some t) = refl
get_csrf_token-render c (next ∷ cs) ok oks =
    let rest : Text = b';' ∷ 32 ∷ render next cs in
    let found = get_csrf_token-render next cs oks.0 oks.1 in
    let later : match_later (with_value c rest) ≡ first_token next cs =
      match_later-cookie c rest ok ∙ found in
    rw (match_here-cookie c rest ok (before_semicolon-stop c.value _ ok.2), later) refl
