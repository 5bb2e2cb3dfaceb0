-- ===== src/Auth/Forms/Outcomes.antt =====
-- What every form leaves as it is, and where it leads.
use scherzo.Prelude.{true, ◌≡◌, List, Bytes, bytes_eq, arith}
use scherzo.Config.{Config, lists_host}
use scherzo.Chat.Backend.{Backend}
use scherzo.Auth.Types.{RegInfo, Field, Hashing, Outside, AuthServer}
use scherzo.Auth.Steps.{form, back_to_inital_step, handle_choice}
use scherzo.Auth.Steps.Replies.{answerable, if_ok}
use scherzo.Auth.Forms.{
  login, register, handle_registration, registration_input_token, delete_user_input_token,
  delete_user_send_token, reset_password_input_token, reset_password_send_token, registration_token,
  mail_registration, send_token, delete_user,
}

module _ ⦃B : Backend⦄ (H : Hashing) (c : Config) (o : Outside) (s : AuthServer) where
  pub login-step_map : (values : List Field) → (login H o values s).1.step_map ≡ s.step_map
  unfolding login
  login-step_map values = ground arith

  pub handle_registration-step_map :
      (values : List Field) → (handle_registration H c o values s).1.step_map ≡ s.step_map
  unfolding handle_registration registration_token mail_registration register
  handle_registration-step_map values = ground arith

  pub registration_input_token-step_map :
      (values : List Field) → (registration_input_token H o values s).1.step_map ≡ s.step_map
  unfolding registration_input_token register
  registration_input_token-step_map values = ground arith

  pub delete_user_input_token-step_map :
      (values : List Field) → (delete_user_input_token H values s).1.step_map ≡ s.step_map
  unfolding delete_user_input_token delete_user
  delete_user_input_token-step_map values = ground arith

  pub delete_user_send_token-step_map :
      (values : List Field) → (delete_user_send_token H o values s).1.step_map ≡ s.step_map
  unfolding delete_user_send_token send_token
  delete_user_send_token-step_map values = ground arith

  pub reset_password_input_token-step_map :
      (values : List Field) → (reset_password_input_token H o values s).1.step_map ≡ s.step_map
  unfolding reset_password_input_token
  reset_password_input_token-step_map values = ground arith

  pub reset_password_send_token-step_map :
      (values : List Field) → (reset_password_send_token H o values s).1.step_map ≡ s.step_map
  unfolding reset_password_send_token send_token
  reset_password_send_token-step_map values = ground arith

  pub login-answerable : (values : List Field) → if_ok (answerable c) (login H o values s).0 ≡ true
  unfolding login answerable form lists_host bytes_eq back_to_inital_step handle_choice
  login-answerable values = ground arith

  register-answerable :
      (password username email : Bytes) (t : AuthServer)
      → if_ok (answerable c) (register H o password username email t).0 ≡ true
  unfolding register answerable
  register-answerable password username email t = ground arith

  mail_registration-answerable :
      (info : RegInfo) (t : AuthServer)
      → if_ok (answerable c) (mail_registration H o info t).0 ≡ true
  unfolding mail_registration answerable form lists_host bytes_eq
  mail_registration-answerable info t = ground arith

  pub handle_registration-answerable :
      (values : List Field) → if_ok (answerable c) (handle_registration H c o values s).0 ≡ true
  unfolding handle_registration
  handle_registration-answerable values =
      grind (arith, register-answerable, mail_registration-answerable)

  pub registration_input_token-answerable :
      (values : List Field) → if_ok (answerable c) (registration_input_token H o values s).0 ≡ true
  unfolding registration_input_token register answerable form lists_host bytes_eq
      back_to_inital_step handle_choice
  registration_input_token-answerable values = ground arith

  pub delete_user_input_token-answerable :
      (values : List Field) → if_ok (answerable c) (delete_user_input_token H values s).0 ≡ true
  unfolding delete_user_input_token delete_user answerable form lists_host bytes_eq
      back_to_inital_step handle_choice
  delete_user_input_token-answerable values = ground arith

  pub delete_user_send_token-answerable :
      (values : List Field) → if_ok (answerable c) (delete_user_send_token H o values s).0 ≡ true
  unfolding delete_user_send_token send_token answerable form lists_host bytes_eq
      back_to_inital_step handle_choice
  delete_user_send_token-answerable values = ground arith

  pub reset_password_input_token-answerable :
      (values : List Field)
      → if_ok (answerable c) (reset_password_input_token H o values s).0 ≡ true
  unfolding reset_password_input_token answerable form lists_host bytes_eq back_to_inital_step
      handle_choice
  reset_password_input_token-answerable values = ground arith

  pub reset_password_send_token-answerable :
      (values : List Field) → if_ok (answerable c) (reset_password_send_token H o values s).0 ≡ true
  unfolding reset_password_send_token send_token answerable form lists_host bytes_eq
      back_to_inital_step handle_choice
  reset_password_send_token-answerable values = ground arith
