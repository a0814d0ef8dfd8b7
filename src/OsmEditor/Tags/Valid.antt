-- ===== src/OsmEditor/Tags/Valid.antt =====
-- What the dictionary of an accepted object satisfies, and which entries are accepted.
use osmmini.Base.{
  suc, ◌+◌, ◌≤◌, ◌≡◌, refl, ◌∙◌, ap, true, false, ◌||◌, inl, inr, List, [], ◌∷◌, ◌++◌, append-nil,
  append_assoc, Text, text_eq_comm, length, length-append, arith, Bool-cases, ltb, ok, >>=-eq-ok,
}
use osmmini.Json.{Value, string}
use osmmini.OsmEditor.Tags.{Tags, has, tag_allowed, add_text, add_tag, add_tags, tags}

-- No key stands twice.
abbrev pub Distinct : Tags → Type 0
Distinct [] = Unit
Distinct ((k, v) ∷ rest) = (has k rest ≡ false) × Distinct rest

abbrev pub Allowed : Tags → Type 0
Allowed [] = Unit
Allowed ((k, v) ∷ rest) = (tag_allowed k v ≡ true) × Allowed rest

pub record IsTags (t : Tags) : Type 0 where
  pub distinct : Distinct t
  pub allowed : Allowed t
  pub few : length t ≤ 200

-- The entries of a dictionary, as `Object.entries` lists them.
abbrev pub tag_entries : Tags → List (Text × Value)
tag_entries [] = []
tag_entries ((k, v) ∷ rest) = (k, string v) ∷ tag_entries rest

has-append : (j : Text) (t u : Tags) → has j (t ++ u) ≡ (has j t || has j u)
has-append j [] u = refl
has-append j ((k, v) ∷ t) u = ground (arith, has-append j t u)

Distinct-snoc : (t : Tags) (k v : Text) → Distinct t → has k t ≡ false → Distinct (t ++ (k, v) ∷ [])
Distinct-snoc [] k v d h = (refl, tt)
Distinct-snoc ((j, w) ∷ t) k v d h = (
  ground (arith, has-append j t ((k, v) ∷ []), text_eq_comm j k),
  Distinct-snoc t k v d.1 (ground arith),
)

Allowed-snoc :
    (t : Tags) (k v : Text) → Allowed t → tag_allowed k v ≡ true → Allowed (t ++ (k, v) ∷ [])
Allowed-snoc [] k v d h = (h, tt)
Allowed-snoc ((j, w) ∷ t) k v d h = (d.0, Allowed-snoc t k v d.1 h)

add_text-keeps :
    (t u : Tags) (k v : Text)
    → Distinct t
    → Allowed t
    → add_text t k v ≡ ok u
    → Distinct u × Allowed u × (length u ≤ length t + 1)
unfolding add_text
add_text-keeps t u k v d a h =
    ground (arith, Distinct-snoc t k v d, Allowed-snoc t k v a, length-append t ((k, v) ∷ []))

add_tag-keeps :
    (t u : Tags) (k : Text) (v : Value)
    → Distinct t
    → Allowed t
    → add_tag t k v ≡ ok u
    → Distinct u × Allowed u × (length u ≤ length t + 1)
unfolding add_tag
add_tag-keeps t u k (string v) d a h = add_text-keeps t u k v d a h
add_tag-keeps t u k _ d a h = cc

add_tags-keeps :
    (t u : Tags) (es : List (Text × Value))
    → Distinct t
    → Allowed t
    → add_tags t es ≡ ok u
    → Distinct u × Allowed u × (length u ≤ length t + length es)
unfolding add_tags
add_tags-keeps t u [] d a h = ground arith
add_tags-keeps t u ((k, v) ∷ es) d a h =
    let (w, e, f) = >>=-eq-ok (add_tag t k v) _ h in
    let (dw, aw, lw) = add_tag-keeps t w k v d a e in
    let (du, au, lu) = add_tags-keeps w u es dw aw f in (du, au, omega arith)

-- Whatever the entries, a dictionary that `tags` returns has no key twice, at most 200 keys, and
-- only keys and values that the test on an entry allows.
pub tags-IsTags : (es : List (Text × Value)) {t : Tags} → tags es ≡ ok t → IsTags t
unfolding tags
tags-IsTags es {t} h = elim (Bool-cases (ltb 200 (length es))) [
  | inl e ↦ cc (rw e at h)
  | inr e ↦
      let (d, a, l) = add_tags-keeps [] t es tt tt (rw e at h) in
      record { distinct = d; allowed = a; few = ground arith }
]

-- A new allowed entry is added at the end.
add_text-fresh :
    (t : Tags) (k v : Text)
    → has k t ≡ false
    → tag_allowed k v ≡ true
    → add_text t k v ≡ ok (t ++ (k, v) ∷ [])
unfolding add_text tag_allowed
add_text-fresh t k v n a = ground arith

has-between : (k v : Text) (t rest : Tags) → Distinct (t ++ (k, v) ∷ rest) → has k t ≡ false
has-between k v [] rest d = refl
has-between k v ((j, w) ∷ t) rest d =
    ground (arith, has-between k v t rest d.1, has-append j t ((k, v) ∷ rest), text_eq_comm j k)

add_tags-fresh :
    (t rest : Tags)
    → Distinct (t ++ rest)
    → Allowed rest
    → add_tags t (tag_entries rest) ≡ ok (t ++ rest)
unfolding add_tags add_tag
add_tags-fresh t [] d a = rw append-nil
add_tags-fresh t ((k, v) ∷ rest) d a = rw (add_text-fresh t k v (has-between k v t rest d) a.0) (
    add_tags-fresh (t ++ (k, v) ∷ []) rest (rw append_assoc d) a.1
    ∙ ap ok (append_assoc t ((k, v) ∷ []) rest))

length-tag_entries : (t : Tags) → length (tag_entries t) ≡ length t
length-tag_entries [] = refl
length-tag_entries ((k, v) ∷ t) = ap suc (length-tag_entries t)

-- A dictionary with no key twice and at most 200 keys, all of them and their values allowed, is accepted
-- again, as it is.
pub tags-tag_entries : (t : Tags) → IsTags t → tags (tag_entries t) ≡ ok t
unfolding tags
tags-tag_entries t h =
    rw (length-tag_entries t) (ground (arith, add_tags-fresh [] t h.distinct h.allowed, h.few))
