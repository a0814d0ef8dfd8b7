-- ===== src/OsmEditor/Changes/Dictionary.antt =====
-- Which keys `changes` reports.
use osmmini.Base.{
  optional_eq, optional_eq_iff, ◌≡◌, ◌≢◌, ◌↔◌, ◌⊎◌, inl, inr, refl, sym, ◌∙◌, subst, true, false,
  Option, none, some, List, [], ◌∷◌, ◌++◌, In, In-append_left, In-append_right, In-of_any, flat_map,
  Bool-cases, Text, text_eq, text_eq_iff, text_lt, In-flat_map, In-of_flat_map,
}
use osmmini.OsmEditor.Tags.{Tags}
use osmmini.OsmEditor.Changes.{
  get, keys, contains, into_set, insert_key, sort_keys, TagChange, tag_change, changes,
}

optional_eq-false : (a b : Option Text) → a ≢ b → optional_eq a b ≡ false
optional_eq-false a b d = elim (Bool-cases (optional_eq a b)) [
  | inl e ↦ absurd (d ((optional_eq_iff a b).0 e))
  | inr e ↦ e
]

contains-In : (k : Text) (ks : List Text) → contains k ks ≡ true → In k ks
contains-In k ks h =
    let (j, m, e) = In-of_any (λ j. text_eq j k) ks h in rw (← (text_eq_iff j k).0 e) m

In-into_set : (k : Text) (seen ks : List Text) → In k seen ⊎ In k ks → In k (into_set seen ks)
In-into_set k seen [] (inl m) = m
In-into_set k seen [] (inr m) = absurd m
In-into_set k seen (j ∷ js) h = elim (Bool-cases (contains j seen)) [
  | inl e ↦ rw e (In-into_set k seen js (old e h))
  | inr e ↦ rw e (In-into_set k (seen ++ j ∷ []) js (new h))
]
  where
    old : contains j seen ≡ true → In k seen ⊎ ((k ≡ j) ⊎ In k js) → In k seen ⊎ In k js
    old e (inl m) = inl m
    old e (inr (inl q)) = inl (subst (λ x. In x seen) (sym q) (contains-In j seen e))
    old e (inr (inr m)) = inr m

    new : In k seen ⊎ ((k ≡ j) ⊎ In k js) → In k (seen ++ j ∷ []) ⊎ In k js
    new (inl m) = inl (In-append_left k seen (j ∷ []) m)
    new (inr (inl q)) = inl (In-append_right k seen (j ∷ []) (inl q))
    new (inr (inr m)) = inr m

In-insert_key : (k j : Text) (ks : List Text) → (k ≡ j) ⊎ In k ks → In k (insert_key j ks)
In-insert_key k j [] (inl e) = inl e
In-insert_key k j [] (inr m) = absurd m
In-insert_key k j (i ∷ is) (inl q) = elim (Bool-cases (text_lt i j)) [
  | inl e ↦ rw e (inr (In-insert_key k j is (inl q)))
  | inr e ↦ rw e (inl q)
]
In-insert_key k j (i ∷ is) (inr (inl q)) = elim (Bool-cases (text_lt i j)) [
  | inl e ↦ rw e (inl q)
  | inr e ↦ rw e (inr (inl q))
]
In-insert_key k j (i ∷ is) (inr (inr m)) = elim (Bool-cases (text_lt i j)) [
  | inl e ↦ rw e (inr (In-insert_key k j is (inr m)))
  | inr e ↦ rw e (inr (inr m))
]

pub In-sort_keys : (k : Text) (ks : List Text) → In k ks → In k (sort_keys ks)
In-sort_keys k [] m = m
In-sort_keys k (j ∷ js) (inl e) = In-insert_key k j (sort_keys js) (inl e)
In-sort_keys k (j ∷ js) (inr m) = In-insert_key k j (sort_keys js) (inr (In-sort_keys k js m))

pub get-In : (k : Text) (t : Tags) {v : Text} → get k t ≡ some v → In k (keys t)
get-In k [] h = cc
get-In k ((j, w) ∷ t) h = elim (Bool-cases (text_eq j k)) [
  | inl e ↦ inl (sym ((text_eq_iff j k).0 e))
  | inr e ↦ inr (get-In k t (rw e at h))
]

-- A key whose values differ is a key of one of the two dictionaries.
key_of-difference :
    (k : Text) (before after : Tags)
    → optional_eq (get k before) (get k after) ≡ false
    → In k (keys before ++ keys after)
key_of-difference k before after h = go (get k before) (get k after) refl refl h
  where
    go :
        (a b : Option Text)
        → get k before ≡ a
        → get k after ≡ b
        → optional_eq a b ≡ false
        → In k (keys before ++ keys after)
    go none none p q e = cc
    go (some v) b p q e = In-append_left k (keys before) (keys after) (get-In k before p)
    go none (some v) p q e = In-append_right k (keys before) (keys after) (get-In k after q)

tag_change-In :
    (before after : Tags) (k : Text) (c : TagChange)
    → In c (tag_change before after k)
    → (c ≡ record { name = k; before = get k before; after = get k after })
      × (optional_eq (get k before) (get k after) ≡ false)
tag_change-In before after k c m = elim (Bool-cases (optional_eq (get k before) (get k after))) [
  | inl e ↦ absurd (rw e at m)
  | inr e ↦ elim (rw e at m) [ inl q ↦ (q, e) | inr n ↦ absurd n ]
]

-- `changes` reports a key, with its two values, exactly when the two dictionaries differ there.
changes-In :
    (before after : Tags) (c : TagChange)
    → In c (changes before after)
      ↔ ((c.before ≡ get c.name before) × (c.after ≡ get c.name after) × (c.before ≢ c.after))
unfolding changes
changes-In before after c = (to, from)
  where
    ks : List Text
    ks = sort_keys (into_set [] (keys before ++ keys after))

    to :
        In c (flat_map (tag_change before after) ks)
        → (c.before ≡ get c.name before) × (c.after ≡ get c.name after) × (c.before ≢ c.after)
    to m =
        let (k, n, r) = In-of_flat_map (tag_change before after) c ks m in
        let (q, e) = tag_change-In before after k c r in
        rw q (refl, refl, λ h. let t = (optional_eq_iff (get k before) (get k after)).1 h in cc e)

    from :
        (c.before ≡ get c.name before) × (c.after ≡ get c.name after) × (c.before ≢ c.after)
        → In c (flat_map (tag_change before after) ks)
    from (p, q, d) =
        let e : optional_eq (get c.name before) (get c.name after) ≡ false =
          optional_eq-false _ _ (λ h. d (p ∙ h ∙ sym q)) in
        In-flat_map (tag_change before after) c.name c ks
          (In-sort_keys c.name _
            (In-into_set c.name [] _ (inr (key_of-difference c.name before after e))))
          (rw e (inl (λ i. record { name = c.name; before = p i; after = q i })))

-- Nothing is reported exactly when the two give every key the same value.
pub changes-nil :
    (before after : Tags) → (changes before after ≡ []) ↔ ((k : Text) → get k before ≡ get k after)
changes-nil before after = (to, from (changes before after) refl)
  where
    to : changes before after ≡ [] → (k : Text) → get k before ≡ get k after
    to h k = elim (Bool-cases (optional_eq (get k before) (get k after))) [
      | inl e ↦ (optional_eq_iff (get k before) (get k after)).0 e
      | inr e ↦
          let c : TagChange = record { name = k; before = get k before; after = get k after } in
          let m =
            (changes-In before after c).1 (
              refl,
              refl,
              λ q. let t = (optional_eq_iff (get k before) (get k after)).1 q in cc e,
            ) in
          absurd (rw h at m)
    ]

    from :
        (cs : List TagChange)
        → changes before after ≡ cs
        → ((k : Text) → get k before ≡ get k after)
        → changes before after ≡ []
    from [] e h = e
    from (c ∷ cs) e h =
        let (p, q, d) = (changes-In before after c).0 (rw e (inl refl)) in
        absurd (d (p ∙ h c.name ∙ sym q))
