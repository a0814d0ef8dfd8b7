-- ===== src/OsmEditor/Xml/Lines.antt =====
-- Reading the lines of an object's tags again.
use osmmini.Base.{
  ℕ, ◌≡◌, ◌↔◌, ◌⊎◌, inl, inr, refl, ap, subst, ◌∙◌, true, false, Option, none, some, List, [], ◌∷◌,
  ◌++◌, map, append_assoc, Text, codes, text_eq, text_lt, text_eq_refl, all, ◌==◌, if◌then◌else◌,
  arith, Bool-cases, In, In-map, In-of_map,
}
use osmmini.OsmEditor.Tags.{Tags}
use osmmini.OsmEditor.Changes.{get, keys, insert_key, sort_keys}
use osmmini.OsmEditor.Changes.Dictionary.{get-In, In-sort_keys}
use osmmini.OsmEditor.Xml.{esc, value_text, tag_line, tag_lines}
use osmmini.OsmEditor.Xml.Escape.{decode, decode-esc, harmless, all-harmless-esc}

abbrev pub and_then {ℓ κ} : {A : Type ℓ} {B : Type κ} → Option A → (A → Option B) → Option B
and_then none f = none
and_then (some a) f = f a

-- What follows a given beginning.
abbrev pub strip : Text → Text → Option Text
strip [] s = some s
strip (c ∷ p) [] = none
strip (c ∷ p) (d ∷ s) = let rest = strip p s in if c == d then rest else none

abbrev before : ℕ → Option (Text × Text) → Option (Text × Text)
before c none = none
before c (some (s, r)) = some (c ∷ s, r)

-- The text up to the next quotation mark, and what follows it.
abbrev pub until_quote : Text → Option (Text × Text)
until_quote [] = none
until_quote (c ∷ s) = let rest = before c (until_quote s) in if c == 34 then some ([], s) else rest

-- An attribute's value behind a given beginning.
unfoldable pub read_attr : Text → Text → Option (Text × Text)
read_attr p s =
    and_then (strip p s) λ r. and_then (until_quote r) λ q. and_then (decode q.0) λ v. some (v, q.1)

-- A line `<tag k="…" v="…"/>`.
unfoldable pub read_tag : Text → Option (Text × Text)
read_tag s = and_then (read_attr (codes "      <tag k=\"") s) λ k.
    and_then (read_attr (codes " v=\"") k.1)
      λ v. if text_eq v.1 (codes "/>") then some (k.0, v.0) else none

strip-append : (p s : Text) → strip p (p ++ s) ≡ some s
strip-append [] s = refl
strip-append (c ∷ p) s = ground (arith, strip-append p s)

until_quote-append : (s r : Text) → all harmless s ≡ true → until_quote (s ++ 34 ∷ r) ≡ some (s, r)
until_quote-append [] r h = refl
until_quote-append (c ∷ s) r h =
    let e : (c == 34) ≡ false = ground arith in
    let k : all harmless s ≡ true = ground arith in rw (e, until_quote-append s r k) refl

read_attr-esc : (p v r : Text) → read_attr p (p ++ (esc v ++ 34 ∷ r)) ≡ some (v, r)
unfolding read_attr
read_attr-esc p v r =
    rw
      (
        strip-append p (esc v ++ 34 ∷ r),
        until_quote-append (esc v) r (all-harmless-esc v),
        decode-esc v,
      )
      refl

tag_line-parts :
    (k v : Text)
    → tag_line k v
      ≡ codes "      <tag k=\"" ++ (esc k ++ 34 ∷ (codes " v=\"" ++ (esc v ++ 34 ∷ codes "/>")))
unfolding tag_line
tag_line-parts k v = simp append_assoc

-- The line of a tag is read as that tag, whatever characters its key and value have.
pub read_tag-tag_line : (k v : Text) → read_tag (tag_line k v) ≡ some (k, v)
unfolding read_tag
read_tag-tag_line k v =
    rw
      (
        tag_line-parts k v,
        read_attr-esc (codes "      <tag k=\"") k (codes " v=\"" ++ (esc v ++ 34 ∷ codes "/>")),
        read_attr-esc (codes " v=\"") v (codes "/>"),
      )
      refl

insert_key-In : (k j : Text) (ks : List Text) → In k (insert_key j ks) → (k ≡ j) ⊎ In k ks
insert_key-In k j [] m = m
insert_key-In k j (i ∷ is) m = elim (Bool-cases (text_lt i j)) [
  | inl e ↦ elim (rw e at m) [
    | inl q ↦ inr (inl q)
    | inr n ↦ elim (insert_key-In k j is n) [ inl q ↦ inl q | inr r ↦ inr (inr r) ]
  ]
  | inr e ↦ rw e at m
]

sort_keys-In : (k : Text) (ks : List Text) → In k (sort_keys ks) → In k ks
sort_keys-In k [] m = m
sort_keys-In k (j ∷ ks) m = elim (insert_key-In k j (sort_keys ks) m) [
  | inl q ↦ inl q
  | inr n ↦ inr (sort_keys-In k ks n)
]

keys-get : (k : Text) (t : Tags) → In k (keys t) → (v : Text) × (get k t ≡ some v)
keys-get k [] m = absurd m
keys-get k ((j, w) ∷ t) m = elim (Bool-cases (text_eq j k)) [
  | inl e ↦ (w, rw e refl)
  | inr e ↦ elim m [
    | inl q ↦ cc (text_eq_refl k, ap (λ x. text_eq x k) q)
    | inr n ↦ let (v, p) = keys-get k t n in (v, rw e p)
  ]
]

same_pair : (p q : Text × Text) → some p ≡ some q → (p.0 ≡ q.0) × (p.1 ≡ q.1)
same_pair p q h =
    let e : p ≡ q = cc in (ap (λ (x : Text × Text). x.0) e, ap (λ (x : Text × Text). x.1) e)

-- The lines that an object's tags are written in give exactly its tags, every key with its value, and
-- nothing else, to a reader that takes them one by one and refuses an angle bracket, a quotation mark,
-- an apostrophe, a line break or a tab that stands in a value as it is.
pub tag_lines-In :
    (t : Tags) (k v : Text) → In (some (k, v)) (map read_tag (tag_lines t)) ↔ (get k t ≡ some v)
unfolding tag_lines
tag_lines-In t k v = (to, from)
  where
    line : Text → Text
    line j = tag_line j (value_text (get j t))

    to : In (some (k, v)) (map read_tag (map line (sort_keys (keys t)))) → get k t ≡ some v
    to m =
        let (l, n, e) = In-of_map read_tag (some (k, v)) (map line (sort_keys (keys t))) m in
        let (j, i, q) = In-of_map line l (sort_keys (keys t)) n in
        let (w, p) = keys-get j t (sort_keys-In j (keys t) i) in
        let (a, b) =
          same_pair (k, v) (j, w)
            (e ∙ ap read_tag (q ∙ ap (λ o. tag_line j (value_text o)) p) ∙ read_tag-tag_line j w) in
        rw (a, b) p

    from : get k t ≡ some v → In (some (k, v)) (map read_tag (map line (sort_keys (keys t))))
    from h =
        let i = In-sort_keys k (keys t) (get-In k t h) in
        let e : read_tag (line k) ≡ some (k, v) =
          ap (λ o. read_tag (tag_line k (value_text o))) h ∙ read_tag-tag_line k v in
        subst (λ o. In o (map read_tag (map line (sort_keys (keys t))))) e
          (In-map read_tag (line k) (map line (sort_keys (keys t)))
            (In-map line k (sort_keys (keys t)) i))
