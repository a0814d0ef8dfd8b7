-- ===== src/Workbench/Session/Kept.antt =====
-- What every step of the workbench of cmd/web/geo-workbench.js keeps.
use osmmini.Base.{
  ℕ, suc, ◌≤◌, ◌<◌, ◌≡◌, refl, ap, inl, inr, Bool, true, false, List, [], ◌∷◌, Text, All, length,
  arith, ltb, Bool-cases, ok, err, ◌>>=◌, Ensures, Ensures-bind, Ensures-of_eq,
}
use osmmini.Json.{Value}
use osmmini.Json.Numbers.{Number}
use osmmini.Workbench.Problem.{Checked}
use osmmini.Workbench.Validate.{validate}
use osmmini.Workbench.Csv.{byte_length, max_bytes}
use osmmini.Workbench.Session.{
  Session, render, remember, push_history, without_oldest, history_limit, current, page_count,
  min_page, fill_edit, guard, when,
}

-- A collection that `validate` accepts.
unfoldable pub IsValid : Value → Type 0
IsValid v = (points : ℕ) × (validate v ≡ ok points)

pub is_valid : (v : Value) (points : ℕ) → validate v ≡ ok points → IsValid v
unfolding IsValid
is_valid v points e = (points, e)

length-without_oldest :
    (d : Value) (h : List Value) → suc (length (without_oldest (d ∷ h))) ≡ length (d ∷ h)
length-without_oldest d [] = refl
length-without_oldest d (e ∷ rest) = ap suc (length-without_oldest e rest)

All-without_oldest : (P : Value → Type 0) (h : List Value) → All P h → All P (without_oldest h)
All-without_oldest P [] a = tt
All-without_oldest P (d ∷ []) a = tt
All-without_oldest P (d ∷ e ∷ rest) a = (a.0, All-without_oldest P (e ∷ rest) a.1)

abbrev Short : List Value → Type 0
Short h = All IsValid h × (length h ≤ 5)

push_history-Short : (d : Value) (h : List Value) → IsValid d → Short h → Short (push_history d h)
unfolding push_history
push_history-Short d h v (a, n) = elim (Bool-cases (ltb 5 (length (d ∷ h)))) [
  | inl e ↦
      rw e (All-without_oldest IsValid (d ∷ h) (v, a), omega (arith, n, length-without_oldest d h))
  | inr e ↦ rw e ((v, a), ground arith)
]

-- The collection and the states to go back to.
unfoldable pub IsKept : Session → Type 0
IsKept s = IsValid s.collection × All IsValid s.history × (length s.history ≤ history_limit)

min_page-lt : (page count : ℕ) → min_page page (page_count count) < page_count count
min_page-lt page count = ground arith

module _ (show : Number → Text) (stringify : Value → Text) (to_number : Text → Number) where
  -- The page that is shown is one of those that there are.
  unfoldable pub IsShown : Session → Type 0
  IsShown s = s.page < page_count (length (current show stringify to_number s))

  abbrev Fine : Session → Type 0
  Fine s = IsKept s × IsShown s

  render-IsShown : (s : Session) → IsShown (render show stringify to_number s)
  unfolding IsShown render fill_edit current
  render-IsShown s = min_page-lt s.page _

  render-IsKept : (s : Session) → IsKept s → IsKept (render show stringify to_number s)
  unfolding IsKept render fill_edit
  render-IsKept s h = h

  pub render-Fine : (s : Session) → IsKept s → Fine (render show stringify to_number s)
  render-Fine s h = (render-IsKept s h, render-IsShown s)

  IsKept-next :
      (next : Value) (s : Session)
      → IsKept s
      → IsValid next
      → IsKept
          (record s { history = push_history s.collection s.history; collection = next; page = 0 })
  unfolding IsKept
  IsKept-next next s (v, h, n) w =
      let (all, short) = push_history-Short s.collection s.history v (h, n) in (w, all, short)

  pub remember-Fine :
      (next : Value) (s : Session)
      → IsKept s
      → Ensures Fine (remember show stringify to_number next s)
  unfolding remember
  remember-Fine next s h =
      Ensures-bind (λ points. validate next ≡ ok points) Fine (validate next) _
        (Ensures-of_eq _ (validate next) (λ points e. e))
        λ points e. elim (Bool-cases (ltb max_bytes (byte_length (stringify next)))) [
          | inl q ↦ rw q tt
          | inr q ↦ rw q (render-Fine _ (IsKept-next next s h (is_valid next points e)))
        ]

  pub guard-Fine : (r : Checked Session) (s : Session) → Ensures Fine r → Fine s → Fine (guard r s)
  unfolding IsKept IsShown current
  guard-Fine (ok t) s e h = e
  guard-Fine (err x) s e h = h

  pub when-Fine : (b : Bool) (t s : Session) → Fine t → Fine s → Fine (when b t s)
  when-Fine true t s k h = k
  when-Fine false t s k h = h

  -- A call that hands on what it computes to `remember` ends well, if it ends.
  pub then_remember-Fine :
      {A : Type 0} (r : Checked A) (value : A → Value) (s : Session)
      → IsKept s
      → Ensures Fine (r >>= λ a. remember show stringify to_number (value a) s)
  then_remember-Fine (ok a) value s h = remember-Fine (value a) s h
  then_remember-Fine (err e) value s h = tt
