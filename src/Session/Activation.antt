-- ===== src/Session/Activation.antt =====
-- Who can activate a session with `Service_ActivateSession` of src/server/ua_services_session.c.
use opc_ua.Common.{
  ℕ, ◌≡◌, ◌≢◌, ◌⊎◌, inl, inr, refl, arith, Bool-cases, Bool, true, false, ltb, ◌==◌, Option, none,
  some, List, [], ◌∷◌, length,
}
use opc_ua.Status.{good}
use opc_ua.Types.{UaString, null_string, empty_string, chars, content, NodeId, string_equal}
use opc_ua.NodeStore.Equality.{string_equal_sound}
use opc_ua.Session.Manager.{Session, Shared, get_session}
use opc_ua.Session.Services.{
  IdentityToken, undecoded, anonymous, user_name, other_token, LoginConfig, anonymous_policy,
  username_policy, matches_login, check_identity, activate, activate_found, activate_session,
}

-- One of the logins has the bytes of the name and of the password.
abbrev pub IsLogin : UaString → UaString → List (UaString × UaString) → Type 0
IsLogin user pw [] = ⊥
IsLogin user pw (l ∷ ls) =
    ((content user ≡ content l.0) × (content pw ≡ content l.1)) ⊎ IsLogin user pw ls

-- What the configuration says of an identity token.
abbrev pub Permits : LoginConfig → IdentityToken → Type 0
Permits config undecoded = ⊥
Permits config other_token = ⊥
Permits config (anonymous policy) =
    (config.enable_anonymous ≡ true)
    × ((policy ≡ null_string) ⊎ (content policy ≡ content anonymous_policy))
Permits config (user_name policy user pw encryption) =
    (config.enable_username_password ≡ true)
    × (content policy ≡ content username_policy)
    × (content encryption ≡ [])
    × IsLogin user pw config.logins

matches_login-IsLogin :
    (user pw : UaString) (ls : List (UaString × UaString))
    → matches_login user pw ls ≡ true
    → IsLogin user pw ls
unfolding matches_login
matches_login-IsLogin user pw [] h = cc
matches_login-IsLogin user pw (l ∷ ls) h = elim (Bool-cases (string_equal user l.0)) [
  | inr e ↦ inr (matches_login-IsLogin user pw ls (rw e at h))
  | inl e ↦ elim (Bool-cases (string_equal pw l.1)) [
    | inr f ↦ inr (matches_login-IsLogin user pw ls (rw (e, f) at h))
    | inl f ↦ inl (string_equal_sound user l.0 e, string_equal_sound pw l.1 f)
  ]
]

no_length : (bs : List ℕ) → ltb 0 (length bs) ≡ false → bs ≡ []
no_length [] h = refl
no_length (b ∷ bs) h = absurd (ground arith)

check_identity-anonymous :
    (config : LoginConfig) (policy : UaString)
    → check_identity config (anonymous policy) ≡ good
    → Permits config (anonymous policy)
unfolding check_identity
check_identity-anonymous config null_string h = (ground arith, inl refl)
check_identity-anonymous config empty_string h =
    (ground arith, inr (string_equal_sound empty_string anonymous_policy (ground arith)))
check_identity-anonymous config (chars bs) h =
    (ground arith, inr (string_equal_sound (chars bs) anonymous_policy (ground arith)))

check_identity-user_name :
    (config : LoginConfig) (policy user pw encryption : UaString)
    → check_identity config (user_name policy user pw encryption) ≡ good
    → Permits config (user_name policy user pw encryption)
unfolding check_identity
check_identity-user_name config policy user pw encryption h = (
  ground arith,
  string_equal_sound policy username_policy (ground arith),
  no_length (content encryption) (ground arith),
  matches_login-IsLogin user pw config.logins (ground arith),
)

-- The checks of `Service_ActivateSession` accept only what the configuration permits.
pub check_identity-Permits :
    (config : LoginConfig) (t : IdentityToken) → check_identity config t ≡ good → Permits config t
unfolding check_identity
check_identity-Permits config undecoded h = absurd (ground arith)
check_identity-Permits config other_token h = absurd (ground arith)
check_identity-Permits config (anonymous policy) h = check_identity-anonymous config policy h
check_identity-Permits config (user_name policy user pw encryption) h =
    check_identity-user_name config policy user pw encryption h

activate_found-Permits :
    (config : LoginConfig) (allocated : Bool) (checked_at activated_at channel : ℕ)
    (identity : IdentityToken) (sh : Shared) (o : Option Session)
    → let r = activate_found config allocated checked_at activated_at channel identity sh o in
      ((s : Session) × (o ≡ some s)
        × Permits config identity
        × (r ≡ (good, activate allocated activated_at channel s sh)))
      ⊎ ((r.0 ≢ good) × (r.1 ≡ sh))
unfolding activate_found
activate_found-Permits config allocated checked_at activated_at channel identity sh none =
    inr ((λ h. omega arith), refl)
activate_found-Permits config allocated checked_at activated_at channel identity sh (some s) =
    elim (Bool-cases (ltb s.valid_till checked_at)) [
      | inl late ↦ rw late (inr ((λ h. omega arith), refl))
      | inr in_time ↦ elim (Bool-cases (check_identity config identity == good)) [
        | inl accepted ↦
            rw (in_time, accepted)
              (inl (s, refl, check_identity-Permits config identity (ground arith), refl))
        | inr refused ↦ rw (in_time, refused) (inr ((λ h. ground arith), refl))
      ]
    ]

-- Either the session of the token is found and its identity permitted, and it is activated; or an
-- error is returned and nothing has changed.
pub activate_session-Permits :
    (config : LoginConfig) (allocated : Bool) (found_at checked_at activated_at channel : ℕ)
    (token : NodeId) (identity : IdentityToken) (sh : Shared)
    → let r =
        activate_session config allocated found_at checked_at activated_at channel token identity
          sh in
      ((s : Session) × (get_session found_at token sh.session_manager ≡ some s)
        × Permits config identity
        × (r ≡ (good, activate allocated activated_at channel s sh)))
      ⊎ ((r.0 ≢ good) × (r.1 ≡ sh))
unfolding activate_session
activate_session-Permits config allocated found_at checked_at activated_at channel token identity
      sh =
    activate_found-Permits config allocated checked_at activated_at channel identity sh
      (get_session found_at token sh.session_manager)
