-- ===== src/Auth/Steps/Replies.antt =====
-- What the steps ask for, and that the server understands the answers to it.
use scherzo.Prelude.{
  Bool, true, false, ◌&&◌, ◌||◌, ◌≡◌, refl, ◌↔◌, Option, none, some, List, [], ◌∷◌, Bytes, ascii,
  bytes_eq, arith, if◌then◌else◌, bytes_eq→eq, Bool-cases, subst, inl, inr,
}
use scherzo.Exec.{Result, ok, err, is_ok, Result-cases}
use scherzo.Config.{Config, lists_host}
use scherzo.Auth.Types.{FormField, choice_step, form_step, session_step, AuthStep, Field}
use scherzo.Auth.Steps.{
  initial_auth_step, form, other_options, register_fields, handle_choice, is_bytes, is_string,
  is_number, handle_field, handle_fields,
}

abbrev pub all_of {ℓ} : {A : Type ℓ} → (A → Bool) → List A → Bool
all_of p [] = true
all_of p (x ∷ xs) = p x && all_of p xs

-- The kinds of field that `handle_fields` knows.
abbrev pub field_kinds : List Bytes
field_kinds =
    ascii "password" ∷ ascii "new-password" ∷ ascii "text" ∷ ascii "number" ∷ ascii "email" ∷ []

-- The titles that `next_step` knows.
abbrev pub form_titles : List Bytes
form_titles =
    ascii "login"
    ∷ ascii "register"
    ∷ ascii "register-input-token"
    ∷ ascii "delete-user-input-token"
    ∷ ascii "delete-user-send-token"
    ∷ ascii "reset-password-input-token"
    ∷ ascii "reset-password-send-token"
    ∷ []

-- A step that the server can take the answers to: each option of a choice leads somewhere, and the title and the
-- fields of a form are known.
unfoldable pub answerable : Config → AuthStep → Bool
unfolding handle_choice lists_host
answerable c s = elim s.step [
  | none ↦ false
  | some (choice_step _ options) ↦ all_of (λ o. is_ok (handle_choice c o)) options
  | some (form_step title fields) ↦
      lists_host title form_titles && all_of (λ f. lists_host f.kind field_kinds) fields
  | some (session_step _ _ _) ↦ true
]

pub answerable-initial : (c : Config) → answerable c initial_auth_step ≡ true
unfolding answerable initial_auth_step bytes_eq handle_choice
answerable-initial c = refl

-- If what comes back is a value, then the test holds of it.
abbrev pub if_ok : {A : Type 0} → (A → Bool) → Result A → Bool
if_ok p (ok a) = p a
if_ok p (err e) = true

pub answerable-handle_choice :
    (c : Config) (choice : Bytes) → if_ok (answerable c) (handle_choice c choice) ≡ true
unfolding answerable bytes_eq handle_choice lists_host form register_fields other_options
    initial_auth_step
answerable-handle_choice c choice = ground arith

-- What the kind of a field asks of a value; of a kind that the server does not know there is none.
abbrev pub fits : FormField → Field → Bool
fits f v =
    if bytes_eq f.kind (ascii "password") || bytes_eq f.kind (ascii "new-password")
    then is_bytes v
    else if bytes_eq f.kind (ascii "text")
    then is_string v
    else if bytes_eq f.kind (ascii "number")
    then is_number v
    else if bytes_eq f.kind (ascii "email")
    then is_string v
    else false

-- A reply that fits a form: no field of it is empty, each value fits the field at its place, and there are not more
-- values than fields.
pub data Fits : List FormField → List (Option Field) → List Field → Type 0 where
  fits_none : (fields : List FormField) → Fits fields [] []
  fits_one :
      (f : FormField) (v : Field) (fields : List FormField) (reply : List (Option Field))
      (vs : List Field)
      → fits f v ≡ true
      → Fits fields reply vs
      → Fits (f ∷ fields) (some v ∷ reply) (v ∷ vs)

-- The values put on a stack, one by one.
abbrev pub pushed : List Field → List Field → List Field
pushed [] values = values
pushed (v ∷ vs) values = pushed vs (v ∷ values)

handle_field_lem : (f : FormField) (v : Field) → is_ok (handle_field f v) ≡ fits f v
unfolding handle_field
handle_field_lem f v = ground arith

handle_field-value : (f : FormField) (v w : Field) → handle_field f v ≡ ok w → v ≡ w
unfolding handle_field
handle_field-value f v w h = ground (arith, h)

handle_fields-Fits :
    (values vs : List Field) (reply : List (Option Field)) (fields : List FormField)
    → Fits fields reply vs
    → handle_fields values reply fields ≡ ok (pushed vs values)
unfolding handle_fields
handle_fields-Fits values _ _ _ (fits_none _) = refl
handle_fields-Fits values _ _ _ (fits_one f v fields reply vs fit rest) =
    elim (Result-cases (handle_field f v)) [
      | inl (e, bad) ↦ absurd (ground (arith, handle_field_lem f v))
      | inr (w, got) ↦
          let same : v ≡ w = handle_field-value f v w got in
          ground (arith, handle_fields-Fits (v ∷ values) vs reply fields rest)
    ]

accepted-Fits :
    (values result : List Field) (reply : List (Option Field)) (fields : List FormField)
    → handle_fields values reply fields ≡ ok result
    → (vs : List Field) × Fits fields reply vs × (result ≡ pushed vs values)
unfolding handle_fields
accepted-Fits values result [] fields h = ([], fits_none fields, ground arith)
accepted-Fits values result (r ∷ reply) [] h = absurd (ground arith)
accepted-Fits values result (none ∷ reply) (f ∷ fields) h = absurd (ground arith)
accepted-Fits values result (some v ∷ reply) (f ∷ fields) h =
    elim (Result-cases (handle_field f v)) [
      | inl (e, bad) ↦ absurd (ground arith)
      | inr (w, got) ↦
          let same : v ≡ w = handle_field-value f v w got in
          let (vs, fit, e) = accepted-Fits (v ∷ values) result reply fields (ground arith) in
          (v ∷ vs, fits_one f v fields reply vs (ground (arith, handle_field_lem f v)) fit, e)
    ]

-- A reply to a form is accepted exactly if it fits, and the values are then on the stack, the last one on top: each
-- of its values is there and fits the kind of the field at its place, and it has no more values than the form has fields.
pub handle_fields-accepts :
    (result : List Field) (reply : List (Option Field)) (fields : List FormField)
    → (handle_fields [] reply fields ≡ ok result)
      ↔ ((vs : List Field) × Fits fields reply vs × (result ≡ pushed vs []))
handle_fields-accepts result reply fields = (
  accepted-Fits [] result reply fields,
  λ (vs, fit, e). ground (arith, handle_fields-Fits [] vs reply fields fit, e),
)

all_of-lists :
    (p : Bytes → Bool) (choice : Bytes) (options : List Bytes)
    → all_of p options ≡ true
    → lists_host choice options ≡ true
    → p choice ≡ true
unfolding lists_host
all_of-lists p choice [] all among = absurd (ground arith)
all_of-lists p choice (o ∷ options) all among = elim (Bool-cases (bytes_eq o choice)) [
  | inl same ↦
      let e : o ≡ choice = bytes_eq→eq o choice same in subst (λ b. p b ≡ true) e (ground arith)
  | inr other ↦ all_of-lists p choice options (ground arith) (ground arith)
]

-- Each option that an answerable step offers leads to a step.
pub answerable-choice :
    (c : Config) (step : AuthStep) (title choice : Bytes) (options : List Bytes)
    → answerable c step ≡ true
    → step.step ≡ some (choice_step title options)
    → lists_host choice options ≡ true
    → (next : AuthStep) × (handle_choice c choice ≡ ok next)
unfolding answerable
answerable-choice c step title choice options can shown among =
    let good = all_of-lists (λ o. is_ok (handle_choice c o)) choice options (ground arith) among in
    elim (Result-cases (handle_choice c choice)) [
      | inl (e, bad) ↦ absurd (ground arith)
      | inr (next, e) ↦ (next, e)
    ]
