-- ===== src/Session/Tokens.antt =====
-- The sessions that `UA_SessionManager_getSession` of src/server/ua_session_manager.c finds.
use opc_ua.Common.{
  ℕ, ◌+◌, ◌*◌, ◌≤◌, ◌<◌, ◌≡◌, ◌≢◌, inl, inr, refl, sym, ap, subst, ◌∙◌, arith, Bool-cases, true,
  false, ltb, leb, ◌==◌, ==_iff, if◌then◌else◌, none, some, List, [], ◌∷◌, All,
}
use opc_ua.Status.{good}
use opc_ua.Types.{Guid, NodeId, guid, node_id_equal}
use opc_ua.NodeStore.Equality.{node_id_equal_refl, node_id_equal-right}
use opc_ua.Session.Manager.{
  Session, SessionManager, Shared, with_token, remove_at_address, unless_late, new_session,
  revised_timeout, get_session, create_session, drop_session, remove_found, remove_session,
}

-- No two sessions have the same place or the same token.
abbrev pub IsApart : List Session → Type 0
IsApart [] = Unit {0}
IsApart (s ∷ ss) =
    All
      (λ t.
        (t.address ≢ s.address)
        × (node_id_equal t.authentication_token s.authentication_token ≡ false))
      ss
    × IsApart ss

All-with_token :
    (P : Session → Type 0) (token : NodeId) (ss : List Session) {s : Session}
    → All P ss
    → with_token token ss ≡ some s
    → P s
unfolding with_token
All-with_token P token [] h e = cc
All-with_token P token (d ∷ ss) h e =
    elim (Bool-cases (node_id_equal d.authentication_token token)) [
      | inl here ↦ subst P (cc (rw here at e)) h.0
      | inr there ↦ All-with_token P token ss h.1 (rw there at e)
    ]

with_token-none :
    (token : NodeId) (ss : List Session)
    → All (λ t. node_id_equal t.authentication_token token ≡ false) ss
    → with_token token ss ≡ none
unfolding with_token
with_token-none token [] h = refl
with_token-none token (s ∷ ss) h = rw h.0 (with_token-none token ss h.1)

-- What differs from a token differs from one that is equal to it.
All-apart :
    (s : Session) (token : NodeId)
    → node_id_equal s.authentication_token token ≡ true
    → (ss : List Session)
    → All
        (λ t.
          (t.address ≢ s.address)
          × (node_id_equal t.authentication_token s.authentication_token ≡ false))
        ss
    → All (λ t. node_id_equal t.authentication_token token ≡ false) ss
All-apart s token e [] h = tt
All-apart s token e (t ∷ ss) h = (
  sym (node_id_equal-right s.authentication_token token t.authentication_token e) ∙ h.0.1,
  All-apart s token e ss h.1,
)

with_token-remove_first :
    (other : NodeId) (d : Session) (ss : List Session)
    → IsApart (d ∷ ss)
    → with_token other (remove_at_address d.address (d ∷ ss))
      ≡ (if node_id_equal d.authentication_token other then none else with_token other (d ∷ ss))
unfolding with_token remove_at_address
with_token-remove_first other d ss apart =
    let self : (d.address == d.address) ≡ true = (==_iff d.address d.address).1 refl in
    elim (Bool-cases (node_id_equal d.authentication_token other)) [
      | inl e ↦ rw (self, e) (with_token-none other ss (All-apart d other e ss apart.0))
      | inr e ↦ rw (self, e) refl
    ]

-- After a removal the token of the removed session finds nothing, and all others what they did.
with_token-remove :
    (token other : NodeId) (ss : List Session) {s : Session}
    → IsApart ss
    → with_token token ss ≡ some s
    → with_token other (remove_at_address s.address ss)
      ≡ (if node_id_equal s.authentication_token other then none else with_token other ss)
unfolding with_token remove_at_address
with_token-remove token other [] apart h = cc
with_token-remove token other (d ∷ ss) {s} apart h =
    elim (Bool-cases (node_id_equal d.authentication_token token)) [
      | inl here ↦
          let same : d ≡ s = cc (rw here at h) in
          subst
            (λ (x : Session). with_token other (remove_at_address x.address (d ∷ ss)) ≡ (
              if node_id_equal x.authentication_token other
              then none
              else with_token other (d ∷ ss)))
            same (with_token-remove_first other d ss apart)
      | inr there ↦
          let found : with_token token ss ≡ some s = rw there at h in
          let differs =
            All-with_token
              (λ t.
                (t.address ≢ d.address)
                × (node_id_equal t.authentication_token d.authentication_token ≡ false))
              token ss apart.0 found in
          let off : (d.address == s.address) ≡ false = ground (arith, differs.0) in
          elim (Bool-cases (node_id_equal d.authentication_token other)) [
            | inl e ↦
                let far : node_id_equal s.authentication_token other ≡ false =
                  sym (node_id_equal-right d.authentication_token other s.authentication_token e)
                  ∙ differs.1 in
                rw (off, e, far) refl
            | inr e ↦ rw (off, e) (with_token-remove token other ss apart.1 found)
          ]
    ]

-- `UA_SessionManager_removeSession` of a token that a session has succeeds, the token finds no
-- session any more, and a token that is not equal finds the same session as before.
pub remove_session-get :
    (token other : NodeId) (now : ℕ) (sh : Shared) (s : Session)
    → IsApart sh.session_manager.sessions
    → with_token token sh.session_manager.sessions ≡ some s
    → ((remove_session token sh).0 ≡ good)
      × (get_session now other (remove_session token sh).1.session_manager ≡ (
          if node_id_equal s.authentication_token other
          then none
          else get_session now other sh.session_manager))
unfolding remove_session remove_found get_session drop_session
remove_session-get token other now sh s apart h =
    let after = with_token-remove token other sh.session_manager.sessions apart h in
    elim (Bool-cases (node_id_equal s.authentication_token other)) [
      | inl e ↦ rw (h, e) (refl, ap (unless_late now) (rw e at after))
      | inr e ↦ rw (h, e) (refl, ap (unless_late now) (rw e at after))
    ]

revised_timeout_le : (most asked : ℕ) → revised_timeout most asked ≤ most
unfolding revised_timeout
revised_timeout_le most asked = ground arith

-- A session that is created is found under its new token until its timeout, which is at most the
-- maximum, and a token that is not equal finds the same session as before.
pub create_session-get :
    (now a asked later : ℕ) (random : Guid) (other : NodeId) (sm : SessionManager)
    → sm.current_session_count < sm.max_session_count
    → let s = new_session a now random asked sm in
      later ≤ now + s.timeout * 10000
      → node_id_equal s.authentication_token other ≡ false
      → let r = create_session now (some a) random asked sm in
        (r.0 ≡ good)
        × (r.1 ≡ some s)
        × (get_session later s.authentication_token r.2 ≡ some s)
        × (get_session later other r.2 ≡ get_session later other sm)
        × (s.timeout ≤ sm.max_session_life_time)
unfolding create_session get_session new_session with_token revised_timeout
create_session-get now a asked later random other sm room in_time apart =
    let room_left : leb sm.max_session_count sm.current_session_count ≡ false = ground arith in
    let token : NodeId = record { namespace_index = 1; identifier = guid random } in
    let late : ltb (now + revised_timeout sm.max_session_life_time asked * 10000) later ≡ false =
      ground arith in
    rw (room_left, node_id_equal_refl token, apart, late)
      (refl, refl, refl, refl, revised_timeout_le sm.max_session_life_time asked)
