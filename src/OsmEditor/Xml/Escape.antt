-- ===== src/OsmEditor/Xml/Escape.antt =====
-- Reading escaped text again.
use osmmini.Base.{
  ℕ, ◌≡◌, refl, ap, sym, subst, ◌∙◌, Bool, true, false, ◌||◌, not, Option, none, some, [], ◌∷◌,
  ◌++◌, Text, codes, text_eq, all, ◌==◌, ==_iff, if◌then◌else◌, arith, Bool-cases, inl, inr,
}
use osmmini.OsmEditor.Xml.{esc_char, esc}

-- The character that a reference stands for, by the text between `&` and `;`.
abbrev pub reference : Text → Option ℕ
reference s =
    if text_eq s (codes "amp")
    then some 38
    else if text_eq s (codes "lt")
    then some 60
    else if text_eq s (codes "gt")
    then some 62
    else if text_eq s (codes "quot")
    then some 34
    else if text_eq s (codes "apos")
    then some 39
    else if text_eq s (codes "#10")
    then some 10
    else if text_eq s (codes "#13")
    then some 13
    else if text_eq s (codes "#9")
    then some 9
    else none

abbrev pub cons_text : Option ℕ → Option Text → Option Text
cons_text (some c) (some s) = some (c ∷ s)
cons_text _ _ = none

-- A character that may stand in an attribute value, `&` as the start of a reference.
abbrev pub harmless : ℕ → Bool
harmless c =
    not (c == 60 || (c == 62 || (c == 34 || (c == 39 || (c == 10 || (c == 13 || c == 9))))))

-- A reader of XML attribute values, which refuses the characters that `harmless` does: the first
-- argument holds the part of a reference that was read.
abbrev pub decode_from : Option Text → Text → Option Text
decode_from none [] = some []
decode_from (some r) [] = none
decode_from none (c ∷ s) =
    let plain = decode_from none s in
    let inside = decode_from (some []) s in
    if c == 38 then inside else if harmless c then cons_text (some c) plain else none
decode_from (some r) (c ∷ s) =
    let plain = decode_from none s in
    let inside = decode_from (some (r ++ c ∷ [])) s in
    if c == 59 then cons_text (reference r) plain else inside

unfoldable pub decode : Text → Option Text
decode = decode_from none

choose :
    (P : ℕ → Text → Type 0) (c n : ℕ) (t rest : Text)
    → P n t
    → ((c == n) ≡ false → P c rest)
    → P c (if c == n then t else rest)
choose P c n t rest a f = elim (Bool-cases (c == n)) [
  | inl e ↦ rw e (subst (λ x. P x t) (sym ((==_iff c n).0 e)) a)
  | inr e ↦ rw e (f e)
]

-- Each character is escaped to a reference that stands for it, or is plain.
esc_char-cases :
    (P : ℕ → Text → Type 0)
    → P 38 (codes "&amp;")
    → P 60 (codes "&lt;")
    → P 62 (codes "&gt;")
    → P 34 (codes "&quot;")
    → P 39 (codes "&apos;")
    → P 10 (codes "&#10;")
    → P 13 (codes "&#13;")
    → P 9 (codes "&#9;")
    → ((c : ℕ) → (c == 38) ≡ false → harmless c ≡ true → P c (c ∷ []))
    → (c : ℕ) → P c (esc_char c)
esc_char-cases P a b d e f g h i plain c = choose P c 38 _ _ a λ p. choose P c 60 _ _ b λ q.
    choose P c 62 _ _ d λ r. choose P c 34 _ _ e λ s. choose P c 39 _ _ f λ t.
      choose P c 10 _ _ g λ u.
        choose P c 13 _ _ h λ v. choose P c 9 _ _ i λ w. plain c p (rw (q, r, s, t, u, v, w) refl)

-- The rest of the text, behind one character.
abbrev Reads : ℕ → Text → Type 0
Reads c t = (s : Text) → decode_from none (t ++ s) ≡ cons_text (some c) (decode_from none s)

Reads-esc_char : (c : ℕ) → Reads c (esc_char c)
Reads-esc_char =
    esc_char-cases Reads (λ s. refl) (λ s. refl) (λ s. refl) (λ s. refl) (λ s. refl) (λ s. refl)
      (λ s. refl) (λ s. refl) (λ c p h s. rw (p, h) refl)

-- What `esc` writes is read as the text that was escaped, whatever its characters are.
pub decode-esc : (s : Text) → decode (esc s) ≡ some s
unfolding decode esc
decode-esc [] = refl
decode-esc (c ∷ s) = Reads-esc_char c (esc s) ∙ ap (cons_text (some c)) (decode-esc s)

all-append : (p : ℕ → Bool) (s t : Text) → all p s ≡ true → all p t ≡ true → all p (s ++ t) ≡ true
all-append p [] t h k = k
all-append p (c ∷ s) t h k = ground (arith, all-append p s t)

harmless-esc_char : (c : ℕ) → all harmless (esc_char c) ≡ true
harmless-esc_char =
    esc_char-cases (λ c t. all harmless t ≡ true) refl refl refl refl refl refl refl refl
      (λ c p h. rw h refl)

-- No escaped text holds an angle bracket, a quotation mark, an apostrophe, a line break or a tab.
pub all-harmless-esc : (s : Text) → all harmless (esc s) ≡ true
unfolding esc
all-harmless-esc [] = refl
all-harmless-esc (c ∷ s) =
    all-append harmless (esc_char c) (esc s) (harmless-esc_char c) (all-harmless-esc s)
