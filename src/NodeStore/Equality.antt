-- ===== src/NodeStore/Equality.antt =====
-- What the comparison of node ids answers, and the hash of ids that compare equal.
use opc_ua.Common.{
  ℕ, ◌≡◌, refl, sym, ap, ap₂, ◌∙◌, arith, Bool, true, false, ◌&&◌, ◌==◌, ==_iff, if◌then◌else◌,
  Bool-cases, inl, inr, List, [], ◌∷◌, length,
}
use opc_ua.Types.{
  UaString, null_string, empty_string, chars, content, Guid, NodeId, Identifier, numeric, string,
  guid, byte_string, bytes_equal, string_equal, guid_equal, identifier_equal, node_id_equal,
}
use opc_ua.NodeStore.Hash.{hash, hash_string, hash_array, identifier_hash}

pub bytes_equal_refl : (bs : List ℕ) → bytes_equal bs bs ≡ true
unfolding bytes_equal
bytes_equal_refl [] = refl
bytes_equal_refl (b ∷ bs) = ground (arith, bytes_equal_refl bs)

pub bytes_equal_sound : (xs ys : List ℕ) → bytes_equal xs ys ≡ true → xs ≡ ys
unfolding bytes_equal
bytes_equal_sound [] [] h = refl
bytes_equal_sound [] (y ∷ ys) h = cc
bytes_equal_sound (x ∷ xs) [] h = cc
bytes_equal_sound (x ∷ xs) (y ∷ ys) h = ground (arith, bytes_equal_sound xs ys)

pub string_equal_refl : (s : UaString) → string_equal s s ≡ true
unfolding string_equal
string_equal_refl s = ground (arith, bytes_equal_refl (content s))

pub string_equal_sound : (s t : UaString) → string_equal s t ≡ true → content s ≡ content t
unfolding string_equal
string_equal_sound s t h = ground (arith, bytes_equal_sound (content s) (content t))

pub guid_equal_refl : (g : Guid) → guid_equal g g ≡ true
unfolding guid_equal
guid_equal_refl g = ground (arith, bytes_equal_refl g.data4)

guid_ext :
    (g h : Guid)
    → g.data1 ≡ h.data1
    → g.data2 ≡ h.data2
    → g.data3 ≡ h.data3
    → g.data4 ≡ h.data4
    → g ≡ h
guid_ext g h a b c d = λ i. record { data1 = a i; data2 = b i; data3 = c i; data4 = d i }

pub guid_equal_sound : (g h : Guid) → guid_equal g h ≡ true → g ≡ h
unfolding guid_equal
guid_equal_sound g h e =
    guid_ext g h (ground arith) (ground arith) (ground arith)
      (bytes_equal_sound g.data4 h.data4 (ground arith))

pub identifier_equal_refl : (i : Identifier) → identifier_equal i i ≡ true
unfolding identifier_equal
identifier_equal_refl (numeric n) = ground arith
identifier_equal_refl (string s) = string_equal_refl s
identifier_equal_refl (guid g) = guid_equal_refl g
identifier_equal_refl (byte_string s) = string_equal_refl s

pub node_id_equal_refl : (n : NodeId) → node_id_equal n n ≡ true
unfolding node_id_equal
node_id_equal_refl n = ground (arith, identifier_equal_refl n.identifier)

string_equal-left :
    (s t u : UaString) → string_equal s t ≡ true → string_equal s u ≡ string_equal t u
unfolding string_equal
string_equal-left s t u h =
    ap (λ bs. if length bs == length (content u) then bytes_equal bs (content u) else false)
      (string_equal_sound s t h)

-- Identifiers that compare equal compare alike with every other.
identifier_equal-left :
    (a b c : Identifier) → identifier_equal a b ≡ true → identifier_equal a c ≡ identifier_equal b c
unfolding identifier_equal
identifier_equal-left (numeric m) (numeric n) c h =
    ap (λ k. identifier_equal (numeric k) c) (omega (arith, (==_iff m n).0 h))
identifier_equal-left (string s) (string t) (string u) h = string_equal-left s t u h
identifier_equal-left (string s) (string t) c h = refl
identifier_equal-left (guid s) (guid t) c h =
    ap (λ g. identifier_equal (guid g) c) (guid_equal_sound s t h)
identifier_equal-left (byte_string s) (byte_string t) (byte_string u) h = string_equal-left s t u h
identifier_equal-left (byte_string s) (byte_string t) c h = refl
identifier_equal-left a b c h = cc

pub node_id_equal-left :
    (a b c : NodeId) → node_id_equal a b ≡ true → node_id_equal a c ≡ node_id_equal b c
unfolding node_id_equal
node_id_equal-left a b c h =
    ap₂ (λ k l. (k == c.namespace_index) && l) (ground arith)
      (identifier_equal-left a.identifier b.identifier c.identifier (ground arith))

-- Ids that compare equal are equal to the same others.
pub node_id_equal-right :
    (a b c : NodeId) → node_id_equal a b ≡ true → node_id_equal c a ≡ node_id_equal c b
node_id_equal-right a b c h =
    let back : node_id_equal b a ≡ true = sym (node_id_equal-left a b a h) ∙ node_id_equal_refl a in
    elim (Bool-cases (node_id_equal c a)) [
      | inl same ↦ same ∙ sym h ∙ sym (node_id_equal-left c a b same)
      | inr other ↦ elim (Bool-cases (node_id_equal c b)) [
        | inl same ↦ cc (node_id_equal-left c b a same, back)
        | inr both ↦ other ∙ sym both
      ]
    ]

-- Both strings have a data pointer, or neither.
abbrev pub alike : UaString → UaString → Bool
alike null_string null_string = true
alike null_string t = false
alike s null_string = false
alike s t = true

abbrev pub alike_ids : Identifier → Identifier → Bool
alike_ids (string s) (string t) = alike s t
alike_ids (byte_string s) (byte_string t) = alike s t
alike_ids i j = true

hash_string-content :
    (s t : UaString) (seed : ℕ)
    → string_equal s t ≡ true
    → alike s t ≡ true
    → hash_string s seed ≡ hash_string t seed
unfolding hash_string
hash_string-content null_string null_string seed h a = refl
hash_string-content null_string empty_string seed h a = cc
hash_string-content null_string (chars bs) seed h a = cc
hash_string-content empty_string null_string seed h a = cc
hash_string-content (chars bs) null_string seed h a = cc
hash_string-content empty_string empty_string seed h a = refl
hash_string-content empty_string (chars cs) seed h a =
    ap (λ bs. hash_array bs seed) (string_equal_sound empty_string (chars cs) h)
hash_string-content (chars bs) empty_string seed h a =
    ap (λ bs. hash_array bs seed) (string_equal_sound (chars bs) empty_string h)
hash_string-content (chars bs) (chars cs) seed h a =
    ap (λ bs. hash_array bs seed) (string_equal_sound (chars bs) (chars cs) h)

identifier_hash-equal :
    (ns : ℕ) (a b : Identifier)
    → identifier_equal a b ≡ true
    → alike_ids a b ≡ true
    → identifier_hash ns a ≡ identifier_hash ns b
unfolding identifier_hash identifier_equal
identifier_hash-equal ns (numeric m) (numeric n) h l =
    ap (λ k. identifier_hash ns (numeric k)) (omega (arith, (==_iff m n).0 h))
identifier_hash-equal ns (string s) (string t) h l = hash_string-content s t ns h l
identifier_hash-equal ns (guid s) (guid t) h l =
    ap (λ g. identifier_hash ns (guid g)) (guid_equal_sound s t h)
identifier_hash-equal ns (byte_string s) (byte_string t) h l = hash_string-content s t ns h l
identifier_hash-equal ns a b h l = cc

pub hash-equal :
    (a b : NodeId)
    → node_id_equal a b ≡ true
    → alike_ids a.identifier b.identifier ≡ true
    → hash a ≡ hash b
unfolding hash node_id_equal
hash-equal a b h l =
    identifier_hash-equal a.namespace_index a.identifier b.identifier (ground arith) l
    ∙ ap (λ ns. identifier_hash ns b.identifier) (ground arith)
