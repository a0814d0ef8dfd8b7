-- ===== src/Presets/Ranked.antt =====
-- Which preset the tags of an object find, of `presetKeyForTags` and `fieldsFor` in
-- cmd/web/osm-presets.js.
use osmmini.Base.{
  ◌≡◌, refl, ap, subst, ◌∙◌, sym, inl, inr, Bool, true, false, Option, none, some, List, [], ◌∷◌,
  ◌++◌, map, In, In-append, In-of_map, all-In, Bool-cases, Option-cases, find, stable_insert,
  stable_sort, ◌≤◌, arith, Text, text_eq, text_eq_iff, find_key, all, ℕ,
}
use osmmini.Presets.Kinds.{Field, Preset}
use osmmini.Presets.Fields.{fields}
use osmmini.Presets.Fields.Common.{common_fields}
use osmmini.Presets.Fields.Special.{special_fields, address_fields}
use osmmini.Presets.Places.{presets, surfaces, services, emergencies}
use osmmini.Presets.Categories.{address, generic_fields}
use osmmini.Presets.Lookup.{
  TagSet, tag_count, ranks, ranked, matches, key_of, preset_key_for_tags, preset_for_tags,
  fields_for, field_of, field_keys,
}

module _ {A : Type 0} (fits : A → A → Bool) where
  In-stable_insert : (a x : A) (ys : List A) → In a (stable_insert fits x ys) → In a (x ∷ ys)
  In-stable_insert a x [] m = m
  In-stable_insert a x (y ∷ ys) m = elim (Bool-cases (fits x y)) [
    | inl e ↦ rw e at m
    | inr e ↦ elim (rw e at m) [
      | inl q ↦ inr (inl q)
      | inr r ↦ elim (In-stable_insert a x ys r) [ inl q ↦ inl q | inr n ↦ inr (inr n) ]
    ]
  ]

  In-stable_insert_of : (a x : A) (ys : List A) → In a (x ∷ ys) → In a (stable_insert fits x ys)
  In-stable_insert_of a x [] m = m
  In-stable_insert_of a x (y ∷ ys) m = elim (Bool-cases (fits x y)) [
    | inl e ↦ rw e m
    | inr e ↦ rw e (elim m [
      | inl q ↦ inr (In-stable_insert_of a x ys (inl q))
      | inr (inl q) ↦ inl q
      | inr (inr n) ↦ inr (In-stable_insert_of a x ys (inr n))
    ])
  ]

  In-stable_sort : (a : A) (xs : List A) → In a (stable_sort fits xs) → In a xs
  In-stable_sort a [] m = m
  In-stable_sort a (x ∷ xs) m = elim (In-stable_insert a x (stable_sort fits xs) m) [
    | inl e ↦ inl e
    | inr n ↦ inr (In-stable_sort a xs n)
  ]

  In-stable_sort_of : (a : A) (xs : List A) → In a xs → In a (stable_sort fits xs)
  In-stable_sort_of a [] m = m
  In-stable_sort_of a (x ∷ xs) (inl e) = In-stable_insert_of a x (stable_sort fits xs) (inl e)
  In-stable_sort_of a (x ∷ xs) (inr m) =
      In-stable_insert_of a x (stable_sort fits xs) (inr (In-stable_sort_of a xs m))

  module _ (size : A → ℕ) (fits-size : (a b : A) → fits a b ≡ true → size b ≤ size a)
      (misfits-size : (a b : A) → fits a b ≡ false → size a ≤ size b) where
    -- No member is followed by a larger one.
    unfoldable Descending : List A → Type 0
    Descending [] = Unit
    Descending (x ∷ xs) = ((a : A) → In a xs → size a ≤ size x) × Descending xs

    Descending-stable_insert :
        (x : A) (ys : List A) → Descending ys → Descending (stable_insert fits x ys)
    unfolding Descending
    Descending-stable_insert x [] h = (λ a m. absurd m, tt)
    Descending-stable_insert x (y ∷ ys) h = elim (Bool-cases (fits x y)) [
      | inl e ↦ rw e (
        λ a m. elim m [
          | inl q ↦ let le = fits-size x y e in omega (arith, le, ap size q)
          | inr n ↦ let le = fits-size x y e in let below = h.0 a n in omega (arith, le, below)
        ],
        h,
      )
      | inr e ↦ rw e (
        λ a m. elim (In-stable_insert a x ys m) [
          | inl q ↦ let le = misfits-size x y e in omega (arith, le, ap size q)
          | inr n ↦ h.0 a n
        ],
        Descending-stable_insert x ys h.1,
      )
    ]

    Descending-stable_sort : (xs : List A) → Descending (stable_sort fits xs)
    unfolding Descending
    Descending-stable_sort [] = tt
    Descending-stable_sort (x ∷ xs) =
        Descending-stable_insert x (stable_sort fits xs) (Descending-stable_sort xs)

    -- What is found first is as large as anything that could be found.
    find-largest :
        (test : A → Bool) (xs : List A)
        → Descending xs
        → (a : A) → In a xs
        → test a ≡ true
        → (b : A) × (find test xs ≡ some b) × In b xs × (test b ≡ true) × (size a ≤ size b)
    unfolding Descending
    find-largest test [] h a m t = absurd m
    find-largest test (x ∷ xs) h a m t = elim (Bool-cases (test x)) [
      | inl e ↦
          rw e (x, refl, inl refl, e, elim m [ inl q ↦ omega (arith, ap size q) | inr n ↦ h.0 a n ])
      | inr e ↦ elim m [
        | inl q ↦ let clash : true ≡ false = sym t ∙ (ap test q ∙ e) in cc
        | inr n ↦
            let (b, found, member, hit, le) = find-largest test xs h.1 a n t in
            rw e (b, found, inr member, hit, le)
      ]
    ]

ranks-tag_count : (a b : Text × Preset) → ranks a b ≡ true → tag_count b ≤ tag_count a
unfolding ranks
ranks-tag_count a b h = ground arith

misranks-tag_count : (a b : Text × Preset) → ranks a b ≡ false → tag_count a ≤ tag_count b
unfolding ranks
misranks-tag_count a b h = ground arith

-- Where a preset of the table matches the tags of an object, the key that is found is that of a
-- preset of the table which matches too and asks for at least as many tags.
pub preset_key_for_tags-most_specific :
    (tags : TagSet) (p : Text × Preset)
    → In p presets
    → matches tags p ≡ true
    → (q : Text × Preset) × (preset_key_for_tags tags ≡ q.0)
      × In q presets
      × (matches tags q ≡ true)
      × (tag_count p ≤ tag_count q)
unfolding preset_key_for_tags ranked
preset_key_for_tags-most_specific tags p m t =
    let order = Descending-stable_sort ranks tag_count ranks-tag_count misranks-tag_count presets in
    let (q, found, member, hit, le) =
      find-largest ranks tag_count ranks-tag_count misranks-tag_count (matches tags)
        (stable_sort ranks presets) order p (In-stable_sort_of ranks p presets m) t in
    (q, ap key_of found, In-stable_sort ranks q presets member, hit, le)

-- An entry that the table of fields holds under its own key.
unfoldable pub IsKnown : Option Field → Type 0
IsKnown entry = (f : Field) × (entry ≡ some f) × (field_of f.key ≡ some f)

abbrev keyed : Text → Option Field → Bool
keyed key none = false
keyed key (some f) = text_eq f.key key

keyed-IsKnown : (key : Text) → keyed key (field_of key) ≡ true → IsKnown (field_of key)
unfolding IsKnown
keyed-IsKnown key h = elim (Option-cases (field_of key)) [
  | inl e ↦ let clash : false ≡ true = ap (keyed key) (sym e) ∙ h in cc
  | inr (f, e) ↦
      let same : f.key ≡ key = (text_eq_iff f.key key).0 (ap (keyed key) (sym e) ∙ h) in
      (f, e, ap field_of same ∙ e)
]

abbrev all_keyed : List Text → Bool
all_keyed keys = all (λ key. keyed key (field_of key)) keys

address-keyed : all_keyed address ≡ true
unfolding address fields common_fields special_fields address_fields
address-keyed = refl

generic_fields-keyed : all_keyed generic_fields ≡ true
unfolding generic_fields fields common_fields special_fields address_fields
generic_fields-keyed = refl

presets-keyed : all (λ p. all_keyed p.1.fields) presets ≡ true
unfolding presets surfaces services emergencies fields common_fields special_fields address_fields
presets-keyed = refl

In-find_key :
    (key : Text) (table : List (Text × Preset)) (p : Preset)
    → find_key key table ≡ some p
    → (j : Text) × In (j, p) table
In-find_key key [] p h = cc
In-find_key key ((j, q) ∷ rest) p h = elim (Bool-cases (text_eq j key)) [
  | inl e ↦ let same : q ≡ p = let found = rw e at h in cc in (j, inl (ap (λ x. (j, x)) (sym same)))
  | inr e ↦ let (i, m) = In-find_key key rest p (rw e at h) in (i, inr m)
]

field_keys-keyed : (tags : TagSet) → all_keyed (field_keys (preset_for_tags tags)) ≡ true
unfolding preset_for_tags
field_keys-keyed tags = elim (Option-cases (preset_for_tags tags)) [
  | inl e ↦ ap (λ o. all_keyed (field_keys o)) e ∙ generic_fields-keyed
  | inr (p, e) ↦
      let (j, m) = In-find_key (preset_key_for_tags tags) presets p e in
      ap (λ o. all_keyed (field_keys o)) e
      ∙ all-In (λ q. all_keyed q.1.fields) (j, p) presets presets-keyed m
]

In-keyed :
    (keys : List Text) (entry : Option Field)
    → all_keyed keys ≡ true
    → In entry (map field_of keys)
    → IsKnown entry
In-keyed keys entry h m =
    let (key, n, e) = In-of_map field_of entry keys m in
    subst IsKnown (sym e) (keyed-IsKnown key (all-In (λ k. keyed k (field_of k)) key keys h n))

-- Every field and every part of the address that a form shows is one of the table, under its own
-- key, whatever the tags are.
pub fields_for-IsKnown :
    (tags : TagSet) (entry : Option Field)
    → In entry ((fields_for tags).fields ++ (fields_for tags).address)
    → IsKnown entry
unfolding fields_for
fields_for-IsKnown tags entry m =
    elim (In-append entry (fields_for tags).fields (fields_for tags).address m) [
      | inl n ↦ In-keyed (field_keys (preset_for_tags tags)) entry (field_keys-keyed tags) n
      | inr n ↦ In-keyed address entry address-keyed n
    ]
