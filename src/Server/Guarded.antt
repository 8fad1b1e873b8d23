-- ===== src/Server/Guarded.antt =====
-- server/: what a request without the token gets.
use browserserve.Common.{ℕ, true, false, Option, some, [], ◌≡◌, refl, ◌⊎◌, inl, inr, Bool-cases}
use browserserve.Common.Text.{Bytes, codes}
use browserserve.Common.Map.{Eq}
use browserserve.Server.App.{
  Host, AppState, Headers, Query, text_of, request_authorized, check_auth,
}
use browserserve.Server.Auth.{authorized}
use browserserve.Server.Sessions.{reject, Answers, ws_handler}
use browserserve.Server.Http.{unauthorized, json_version, profile_drop_off, profile_pick_up}
use browserserve.Server.Credentials.{Presents, authorized-Presents}

-- Each handler that serves a client refuses with 401 and changes nothing.
pub record IsShut {F K P : Type 0} ⦃e : Eq K⦄ (h : Host F) (s : AppState F K P) (query : Query K)
    (headers : Headers) : Type 0 where
  pub session :
      (a : Answers K)
      → ws_handler h s query headers a
        ≡ record { response = reject 401 (codes "unauthorized"); state = s; calls = [] }
  pub discovery : json_version h s query headers ≡ unauthorized
  pub dropping :
      (now : ℕ) (token : Option K) (body : Option P)
      → profile_drop_off h s query headers now token body ≡ (unauthorized, s)
  pub picking :
      (now : ℕ) (token : K) → profile_pick_up h s query headers now token ≡ (unauthorized, s)

module _ {F K P : Type 0} ⦃e : Eq K⦄ (h : Host F) (s : AppState F K P) (query : Query K)
    (headers : Headers) where
  stranger-IsShut : check_auth h s query headers ≡ false → IsShut h s query headers
  unfolding ws_handler json_version profile_drop_off profile_pick_up
  stranger-IsShut k = record {
    session = λ a. rw k refl;
    discovery = rw k refl;
    dropping = λ now token body. rw k refl;
    picking = λ now token. rw k refl;
  }

  known-authorized :
      (token : Bytes)
      → s.token ≡ some token
      → check_auth h s query headers ≡ true
      → authorized h.ct_eq (some token) query.token (text_of headers.authorization) ≡ true
  unfolding check_auth request_authorized
  known-authorized token is_token k = rw is_token at k

  -- On a server with a token, a request that does not present it is refused with 401 and changes nothing:
  -- as a session, new or resumed, for discovery, and for the drop-off and the pick-up of a profile.
  check_auth-Presents :
      (token : Bytes)
      → ((a b : Bytes) → h.ct_eq a b ≡ true → a ≡ b)
      → s.token ≡ some token
      → Presents token query.token (text_of headers.authorization) ⊎ IsShut h s query headers
  check_auth-Presents token law is_token = elim (Bool-cases (check_auth h s query headers)) [
    | inr stranger ↦ inr (stranger-IsShut stranger)
    | inl known ↦ inl (
        authorized-Presents h.ct_eq token query.token (text_of headers.authorization) law
          (known-authorized token is_token known))
  ]
