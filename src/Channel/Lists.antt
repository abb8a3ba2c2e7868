-- ===== src/Channel/Lists.antt =====
-- The list of channels under a write through a pointer and under a removal.
use opc_ua.Common.{
  ℕ, suc, ◌≡◌, ◌≢◌, refl, arith, subst, ◌==◌, Bool-cases, inl, inr, none, some, List, [], ◌∷◌,
  length, All,
}
use opc_ua.Channel.State.{Channel, modify, remove, at_address, with_id}

-- No two channels have the same key.
abbrev pub Distinct : (Channel → ℕ) → List Channel → Type 0
Distinct key [] = Unit {0}
Distinct key (c ∷ cs) = All (λ d. key d ≢ key c) cs × Distinct key cs

pub All-map :
    (P Q : Channel → Type 0)
    → ((c : Channel) → P c → Q c)
    → (cs : List Channel) → All P cs
    → All Q cs
All-map P Q f [] h = tt
All-map P Q f (c ∷ cs) h = (f c h.0, All-map P Q f cs h.1)

pub All-remove : (P : Channel → Type 0) (a : ℕ) (cs : List Channel) → All P cs → All P (remove a cs)
unfolding remove
All-remove P a [] h = tt
All-remove P a (c ∷ cs) h = elim (Bool-cases (c.address == a)) [
  | inl e ↦ rw e h.1
  | inr e ↦ rw e (h.0, All-remove P a cs h.1)
]

pub Distinct-remove :
    (key : Channel → ℕ) (a : ℕ) (cs : List Channel) → Distinct key cs → Distinct key (remove a cs)
unfolding remove
Distinct-remove key a [] h = tt
Distinct-remove key a (c ∷ cs) h = elim (Bool-cases (c.address == a)) [
  | inl e ↦ rw e h.1
  | inr e ↦ rw e (All-remove (λ d. key d ≢ key c) a cs h.0, Distinct-remove key a cs h.1)
]

pub length-remove :
    (a : ℕ) (cs : List Channel) {c : Channel}
    → at_address a cs ≡ some c
    → length cs ≡ suc (length (remove a cs))
unfolding at_address remove
length-remove a [] h = cc
length-remove a (d ∷ cs) {c} h = ground (arith, length-remove a cs {c = c})

pub length-modify :
    (a : ℕ) (f : Channel → Channel) (cs : List Channel) → length (modify a f cs) ≡ length cs
unfolding modify
length-modify a f [] = refl
length-modify a f (c ∷ cs) = ground (arith, length-modify a f cs)

-- A write keeps what it keeps of the channel at the pointer.
pub All-modify :
    (P : Channel → Type 0) (a : ℕ) (f : Channel → Channel)
    → ((c : Channel) → P c → P (f c))
    → (cs : List Channel) → All P cs
    → All P (modify a f cs)
unfolding modify
All-modify P a f keep [] h = tt
All-modify P a f keep (c ∷ cs) h = elim (Bool-cases (c.address == a)) [
  | inl e ↦ rw e (keep c h.0, h.1)
  | inr e ↦ rw e (h.0, All-modify P a f keep cs h.1)
]

module _ (key : Channel → ℕ) (P : Channel → Type 0) (a : ℕ) (f : Channel → Channel)
    (keep : (c : Channel) → P c → key (f c) ≡ key c) where
  apart :
      (k : ℕ) (cs : List Channel)
      → All P cs
      → All (λ d. key d ≢ k) cs
      → All (λ d. key d ≢ k) (modify a f cs)
  unfolding modify
  apart k [] p h = tt
  apart k (c ∷ cs) p h = elim (Bool-cases (c.address == a)) [
    | inl e ↦ rw e (rw (keep c p.0) h.0, h.1)
    | inr e ↦ rw e (h.0, apart k cs p.1 h.1)
  ]

  pub Distinct-modify :
      (cs : List Channel) → All P cs → Distinct key cs → Distinct key (modify a f cs)
  unfolding modify
  Distinct-modify [] p h = tt
  Distinct-modify (c ∷ cs) p h = elim (Bool-cases (c.address == a)) [
    | inl e ↦ rw e (rw (keep c p.0) h.0, h.1)
    | inr e ↦ rw e (apart (key c) cs p.1 h.0, Distinct-modify cs p.1 h.1)
  ]

-- What holds of all channels holds of one that is found.
pub All-with_id :
    (P : Channel → Type 0) (id : ℕ) (cs : List Channel) {c : Channel}
    → All P cs
    → with_id id cs ≡ some c
    → P c
unfolding with_id
All-with_id P id [] h e = cc
All-with_id P id (d ∷ cs) {c} h e = elim (Bool-cases (d.security_token.channel_id == id)) [
  | inl here ↦ subst P (cc (rw here at e)) h.0
  | inr there ↦ All-with_id P id cs h.1 (rw there at e)
]

pub All-at_address :
    (P : Channel → Type 0) (a : ℕ) (cs : List Channel) {c : Channel}
    → All P cs
    → at_address a cs ≡ some c
    → P c
unfolding at_address
All-at_address P a [] h e = cc
All-at_address P a (d ∷ cs) {c} h e = elim (Bool-cases (d.address == a)) [
  | inl here ↦ subst P (cc (rw here at e)) h.0
  | inr there ↦ All-at_address P a cs h.1 (rw there at e)
]

-- The channel that is found by its id stands at its address, if addresses are distinct.
pub at_address-with_id :
    (id : ℕ) (cs : List Channel) {c : Channel}
    → Distinct (λ d. d.address) cs
    → with_id id cs ≡ some c
    → at_address c.address cs ≡ some c
unfolding at_address with_id
at_address-with_id id [] apart h = cc
at_address-with_id id (d ∷ cs) {c} apart h = elim (Bool-cases (d.security_token.channel_id == id)) [
  | inl here ↦ ground arith
  | inr there ↦
      let found : with_id id cs ≡ some c = rw there at h in
      ground (
        arith,
        All-with_id (λ e. e.address ≢ d.address) id cs apart.0 found,
        at_address-with_id id cs apart.1 found,
      )
]

pub with_id-channel_id :
    (id : ℕ) (cs : List Channel) {c : Channel}
    → with_id id cs ≡ some c
    → c.security_token.channel_id ≡ id
unfolding with_id
with_id-channel_id id [] h = cc
with_id-channel_id id (d ∷ cs) {c} h = ground (arith, with_id-channel_id id cs {c = c})

-- No channel has the id.
pub with_id-none :
    (id : ℕ) (cs : List Channel)
    → All (λ c. c.security_token.channel_id ≢ id) cs
    → with_id id cs ≡ none
unfolding with_id
with_id-none id [] h = refl
with_id-none id (c ∷ cs) h = ground (arith, with_id-none id cs, h.0)
