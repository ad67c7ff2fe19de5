-- ===== src/Event/Labels/Distinct.antt =====
-- No two types share a label, but for the requests that differ in the size of their characters.
use Prim.Native.String.{String}
use text.Mathlib.Text.{◌==◌ as same_text}
use xcb_util.Prelude.{
  ℕ, suc, ◌<◌, ◌≡◌, refl, sym, ◌∙◌, Bool, true, false, List, [], ◌∷◌, Option, some, none, get_elem?,
  get_elem?-ge, length, ◌==◌, ==_iff, if◌then◌else◌, dec_lt, arith,
}
use xcb_util.Bits.{all_below, all_below_sound}
use xcb_util.Event.Labels.{
  label_error, label_request, label_event, get_label, get_error_label, get_request_label,
}

pub data Kind : Type 0 where
  error request event : Kind

abbrev pub label : Kind → ℕ → Option String
label error i = get_error_label i
label request i = get_request_label i
label event i = get_label i

-- PolyText16 (75) has the label of PolyText8 (74), and ImageText16 (77) that of ImageText8 (76).
abbrev pub leading : Kind → ℕ → ℕ
leading request i = if i == 75 then 74 else if i == 77 then 76 else i
leading _ i = i

-- The first place of a text in a table.
unfoldable first : List String → String → ℕ
first [] s = 0
first (t ∷ ts) s = let rest = first ts s in if same_text t s then 0 else suc rest

abbrev table : Kind → List String
table error = label_error
table request = label_request
table event = label_event

unfoldable first_is : Kind → ℕ → Bool
first_is k i = elim (get_elem? (table k) i) [
  | none ↦ false
  | some s ↦ first (table k) s == leading k i
]

checked : (k : Kind) → all_below (length (table k)) (first_is k) ≡ true
unfolding all_below first_is first label_error label_request label_event
checked error = refl
checked request = refl
checked event = refl

label-table : (k : Kind) (i : ℕ) → label k i ≡ get_elem? (table k) i
unfolding get_label get_error_label get_request_label
label-table error i = refl
label-table request i = refl
label-table event i = refl

some-none : {s : String} → some s ≡ none → ⊥
some-none e = cc

inside : (k : Kind) (i : ℕ) {s : String} → get_elem? (table k) i ≡ some s → i < length (table k)
inside k i e = elim (dec_lt i (length (table k))) [
  | yes lt ↦ lt
  | no ge ↦ absurd (some-none (sym e ∙ get_elem?-ge (table k) i (omega arith)))
]

first-leading :
    (k : Kind) (i : ℕ) (s : String) → label k i ≡ some s → first (table k) s ≡ leading k i
unfolding first_is
first-leading k i s e =
    let found : get_elem? (table k) i ≡ some s = sym (label-table k i) ∙ e in
    (==_iff _ _).0 (
      rw (first_is, found) at
        (all_below_sound (length (table k)) (first_is k) i (checked k) (inside k i found)))

-- Two event types with the same label are equal, and so are two error codes; two requests are
-- equal or a pair of PolyText8 and PolyText16, or of ImageText8 and ImageText16.
label-injective :
    (k : Kind) (i j : ℕ) (s : String)
    → label k i ≡ some s
    → label k j ≡ some s
    → leading k i ≡ leading k j
label-injective k i j s e e' = sym (first-leading k i s e) ∙ first-leading k j s e'
