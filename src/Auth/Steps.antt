-- ===== src/Auth/Steps.antt =====
-- The steps that a client is shown, and how a reply to one is read (`initial_auth_step`, `back_to_inital_step` and
-- the `try_get_*` functions of src/impls/auth/mod.rs; `form`, `handle_choice` and `handle_fields` of
-- src/impls/auth/next_step.rs).
pub mod Replies
use scherzo.Prelude.{
  Bool, true, false, ◌||◌, Option, none, some, List, [], ◌∷◌, ◌++◌, Bytes, ascii, bytes_eq, map,
  if◌then◌else◌,
}
use scherzo.Error.{no_such_field, no_field_specified, wrong_type_for_field, ServerError}
use scherzo.Exec.{Result, ok, err, server, bail, then_do}
use scherzo.Config.{Config}
use scherzo.Auth.Types.{
  FormField, Step, choice_step, form_step, AuthStep, Field, bytes_field, string_field, number_field,
}

unfoldable pub initial_auth_step : AuthStep
initial_auth_step = record {
  can_go_back = false;
  fallback_url = [];
  step = some (
      choice_step (ascii "initial")
        (ascii "login" ∷ ascii "register" ∷ ascii "other-options" ∷ []));
}

unfoldable pub back_to_inital_step : AuthStep
back_to_inital_step = record {
  can_go_back = false;
  fallback_url = [];
  step = some (choice_step (ascii "success") (ascii "back-to-initial" ∷ []));
}

-- A list of fields, each with its name and type.
unfoldable pub form : Bytes → List (Bytes × Bytes) → Option Step
form title steps =
    some (form_step title (map (λ (f : Bytes × Bytes). record { name = f.0; kind = f.1 }) steps))

-- The step of a form, which the client may leave with `step_back` or not.
abbrev form_at : Bool → Bytes → List (Bytes × Bytes) → AuthStep
form_at can_go_back title steps = record {
  can_go_back = can_go_back;
  fallback_url = [];
  step = form title steps;
}

unfoldable pub other_options : Config → List Bytes
other_options c = if c.has_email then ascii "delete-user" ∷ ascii "reset-password" ∷ [] else []

unfoldable pub register_fields : Config → List (Bytes × Bytes)
register_fields c =
    (ascii "email", ascii "email")
    ∷ (ascii "username", ascii "text")
    ∷ (ascii "password", ascii "password")
    ∷ (if c.disable_registration then (ascii "token", ascii "password") ∷ [] else [])

unfoldable pub handle_choice : Config → Bytes → Result AuthStep
unfolding initial_auth_step other_options register_fields form
handle_choice c choice =
    if bytes_eq choice (ascii "back-to-initial")
    then ok initial_auth_step
    else if bytes_eq choice (ascii "other-options")
    then ok (record {
      can_go_back = true;
      fallback_url = [];
      step = some (choice_step (ascii "other-options") (other_options c));
    })
    else if bytes_eq choice (ascii "reset-password")
    then ok (form_at true (ascii "reset-password-send-token") ((ascii "email", ascii "email") ∷ []))
    else if bytes_eq choice (ascii "delete-user")
    then ok (form_at true (ascii "delete-user-send-token") ((ascii "email", ascii "email") ∷ []))
    else if bytes_eq choice (ascii "login")
    then ok (
        form_at true (ascii "login")
          ((ascii "email", ascii "email") ∷ (ascii "password", ascii "password") ∷ []))
    else if bytes_eq choice (ascii "register")
    then ok (form_at true (ascii "register") (register_fields c))
    else err (bail (ascii "h.invalid-choice") (ascii "got invalid choice: " ++ choice))

abbrev pub is_bytes : Field → Bool
is_bytes (bytes_field _) = true
is_bytes (string_field _) = false
is_bytes (number_field _) = false

abbrev pub is_string : Field → Bool
is_string (bytes_field _) = false
is_string (string_field _) = true
is_string (number_field _) = false

abbrev pub is_number : Field → Bool
is_number (bytes_field _) = false
is_number (string_field _) = false
is_number (number_field _) = true

abbrev typed : Bool → Field → ServerError → Result Field
typed fits field e = if fits then ok field else err (server e)

-- The body of the loop of `handle_fields`: the value to push.
unfoldable pub handle_field : FormField → Field → Result Field
handle_field afield field =
    if bytes_eq afield.kind (ascii "password") || bytes_eq afield.kind (ascii "new-password")
    then typed (is_bytes field) field (wrong_type_for_field afield.name (ascii "bytes"))
    else if bytes_eq afield.kind (ascii "text")
    then typed (is_string field) field (wrong_type_for_field afield.name (ascii "text"))
    else if bytes_eq afield.kind (ascii "number")
    then typed (is_number field) field (wrong_type_for_field afield.name (ascii "number"))
    else if bytes_eq afield.kind (ascii "email")
    then typed (is_string field) field (wrong_type_for_field afield.name (ascii "email"))
    else err (bail (ascii "h.invalid-field-type") (ascii "got invalid field type: " ++ afield.kind))

-- The values pushed on those already there, the last one first. A reply may have fewer fields than the form.
unfoldable pub handle_fields :
    List Field → List (Option Field) → List FormField → Result (List Field)
unfolding handle_field
handle_fields values [] auth_fields = ok values
handle_fields values (field ∷ fields) [] = err (server no_such_field)
handle_fields values (none ∷ fields) (afield ∷ auth_fields) = err (server no_field_specified)
handle_fields values (some field ∷ fields) (afield ∷ auth_fields) =
    then_do (handle_field afield field) λ value. handle_fields (value ∷ values) fields auth_fields

-- `try_get_string` and `try_get_bytes`: the value popped, and the values left.
unfoldable pub try_get_string : List Field → ServerError → Result (Bytes × List Field)
try_get_string (string_field value ∷ values) e = ok (value, values)
try_get_string _ e = err (server e)

unfoldable pub try_get_bytes : List Field → ServerError → Result (Bytes × List Field)
try_get_bytes (bytes_field value ∷ values) e = ok (value, values)
try_get_bytes _ e = err (server e)

unfoldable pub try_get_email : List Field → Result (Bytes × List Field)
unfolding try_get_string
try_get_email values = try_get_string values (wrong_type_for_field (ascii "email") (ascii "email"))

unfoldable pub try_get_username : List Field → Result (Bytes × List Field)
unfolding try_get_string
try_get_username values =
    try_get_string values (wrong_type_for_field (ascii "username") (ascii "text"))

unfoldable pub try_get_password : List Field → Result (Bytes × List Field)
unfolding try_get_bytes
try_get_password values =
    try_get_bytes values (wrong_type_for_field (ascii "password") (ascii "bytes"))

unfoldable pub try_get_token : List Field → Result (Bytes × List Field)
unfolding try_get_bytes
try_get_token values = try_get_bytes values (wrong_type_for_field (ascii "token") (ascii "bytes"))
