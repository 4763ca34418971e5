-- ===== src/Web/Address.antt =====
-- `resolveClientIp` of src/auth/auth.controller.ts.
use video_calling.Base.{
  ℕ, Bool, true, false, ◌&&◌, ◌||◌, not, ltb, ◌==◌, Option, [], ◌∷◌, ◌++◌, ◌≡◌, refl, ap, ◌∙◌,
  arith, if◌then◌else◌, or_else, All, Bool-cases, inl, inr,
}
use video_calling.Database.{Text}

-- A request header: absent, one text, or several.
pub data ForwardedFor : Type 0 where
  absent several : ForwardedFor
  one : Text → ForwardedFor

-- `split(',')[0]`
abbrev pub before_comma : Text → Text
before_comma [] = []
before_comma (c ∷ cs) = let rest = before_comma cs in if c == b',' then [] else c ∷ rest

-- The characters that `trim` takes off: WhiteSpace and LineTerminator of ECMAScript.
abbrev pub is_blank : ℕ → Bool
is_blank c =
    (not (ltb c 9) && ltb c 14)
    || (c == 32
        || (c == 160
            || (c == 5760
                || ((not (ltb c 8192) && ltb c 8203)
                    || (c == 8232
                        || (c == 8233
                            || (c == 8239 || (c == 8287 || (c == 12288 || c == 65279)))))))))

abbrev pub is_empty : Text → Bool
is_empty [] = true
is_empty (c ∷ cs) = false

abbrev pub trim_start : Text → Text
trim_start [] = []
trim_start (c ∷ cs) = let rest = trim_start cs in if is_blank c then rest else c ∷ cs

abbrev pub trim_end : Text → Text
trim_end [] = []
trim_end (c ∷ cs) = let rest = trim_end cs in if is_blank c && is_empty rest then [] else c ∷ rest

-- '0.0.0.0'
abbrev pub no_address : Text
no_address = b'0' ∷ b'.' ∷ b'0' ∷ b'.' ∷ b'0' ∷ b'.' ∷ b'0' ∷ []

unfoldable pub resolve_client_ip : ForwardedFor → (remote_address : Option Text) → Text
resolve_client_ip (one forwarded) remote_address = trim_end (trim_start (before_comma forwarded))
resolve_client_ip _ remote_address = or_else remote_address no_address

-- The text has no comma.
abbrev pub HasNoComma : Text → Type 0
HasNoComma = All (λ c. (c == b',') ≡ false)

abbrev pub IsBlank : Text → Type 0
IsBlank = All (λ c. is_blank c ≡ true)

abbrev last_is_visible : Text → Bool
last_is_visible [] = true
last_is_visible (c ∷ cs) = if is_empty cs then not (is_blank c) else last_is_visible cs

-- The text neither begins nor ends with a blank.
abbrev pub is_trimmed : Text → Bool
is_trimmed [] = true
is_trimmed (c ∷ cs) = not (is_blank c) && last_is_visible (c ∷ cs)

before_comma-append : (t rest : Text) → HasNoComma t → before_comma (t ++ b',' ∷ rest) ≡ t
before_comma-append [] rest h = refl
before_comma-append (c ∷ cs) rest h = ground (arith, before_comma-append cs rest h.1)

HasNoComma-append : (s t : Text) → HasNoComma s → HasNoComma t → HasNoComma (s ++ t)
HasNoComma-append [] t hs ht = ht
HasNoComma-append (c ∷ cs) t hs ht = (hs.0, HasNoComma-append cs t hs.1 ht)

trim_start-blank : (s t : Text) → IsBlank s → trim_start (s ++ t) ≡ trim_start t
trim_start-blank [] t h = refl
trim_start-blank (c ∷ cs) t h = rw (h.0) (trim_start-blank cs t h.1)

trim_end-blank : (s : Text) → IsBlank s → trim_end s ≡ []
trim_end-blank [] h = refl
trim_end-blank (c ∷ cs) h = rw (h.0, trim_end-blank cs h.1) refl

trim_end-append :
    (t after : Text) → last_is_visible t ≡ true → IsBlank after → trim_end (t ++ after) ≡ t
trim_end-append [] after v h = trim_end-blank after h
trim_end-append (c ∷ []) after v h = ground (arith, trim_end-blank after h)
trim_end-append (c ∷ d ∷ cs) after v h =
    let e : trim_end ((d ∷ cs) ++ after) ≡ d ∷ cs = trim_end-append (d ∷ cs) after v h in
    let kept : Text → Text = λ rest. if is_blank c && is_empty rest then [] else c ∷ rest in
    ap kept e ∙ ground arith

trim-append :
    (t after : Text) → is_trimmed t ≡ true → IsBlank after → trim_end (trim_start (t ++ after)) ≡ t
trim-append [] after v h =
    let none_left : (s : Text) → IsBlank s → trim_start s ≡ [] = all_blank in
    ap trim_end (none_left after h)
  where
    all_blank : (s : Text) → IsBlank s → trim_start s ≡ []
    all_blank [] h = refl
    all_blank (c ∷ cs) h = rw (h.0) (all_blank cs h.1)
trim-append (c ∷ cs) after v h = elim (Bool-cases (is_blank c)) [
  | inl blank ↦ absurd (ground arith)
  | inr visible ↦ rw visible (trim_end-append (c ∷ cs) after (ground arith) h)
]

before_comma-all : (t : Text) → HasNoComma t → before_comma t ≡ t
before_comma-all [] h = refl
before_comma-all (c ∷ cs) h = ground (arith, before_comma-all cs h.1)

-- The caller's address is the first entry of X-Forwarded-For without the blanks around it, whatever
-- the address of the peer: where the header is the one entry, and where a comma and more follow.
pub resolve_client_ip-forwarded :
    (before address after rest : Text) (remote_address : Option Text)
    → HasNoComma address
    → is_trimmed address ≡ true
    → HasNoComma before
    → HasNoComma after
    → IsBlank before
    → IsBlank after
    → (resolve_client_ip (one (before ++ (address ++ after))) remote_address ≡ address)
      × (resolve_client_ip (one ((before ++ (address ++ after)) ++ b',' ∷ rest)) remote_address
          ≡ address)
unfolding resolve_client_ip
resolve_client_ip-forwarded before address after rest remote_address plain trimmed nb na bb ba =
    let field = before ++ (address ++ after) in
    let no_comma : HasNoComma field =
      HasNoComma-append before (address ++ after) nb (HasNoComma-append address after plain na) in
    let trim : Text → Text = λ t. trim_end (trim_start t) in
    let inner : trim field ≡ address =
      ap trim_end (trim_start-blank before (address ++ after) bb)
      ∙ trim-append address after trimmed ba in
    (
      ap trim (before_comma-all field no_comma) ∙ inner,
      ap trim (before_comma-append field rest no_comma) ∙ inner,
    )
