-- ===== src/Types.antt =====
-- The built-in types of include/ua_types.h that identify things, and their comparison in
-- src/ua_types.c.
use opc_ua.Common.{ℕ, ◌^◌, ◌%◌, ◌<◌, ◌≡◌, Bool, true, false, ◌&&◌, ◌==◌, if◌then◌else◌}
use opc_ua.Common.{List, [], ◌∷◌, length, All}

-- `UA_String` and `UA_ByteString`: the data pointer is NULL, the sentinel of an empty array, or
-- points to `length` bytes. The length of the first two is 0.
pub data UaString : Type 0 where
  null_string : UaString
  empty_string : UaString
  chars : List ℕ → UaString

pub record Guid : Type 0 where
  pub data1 : ℕ
  pub data2 : ℕ
  pub data3 : ℕ
  pub data4 : List ℕ

-- The tag `identifierType` and the union of a `UA_NodeId`.
pub data Identifier : Type 0 where
  numeric : ℕ → Identifier
  string : UaString → Identifier
  guid : Guid → Identifier
  byte_string : UaString → Identifier

pub record NodeId : Type 0 where
  pub namespace_index : ℕ
  pub identifier : Identifier

pub record ExpandedNodeId : Type 0 where
  pub node_id : NodeId
  pub namespace_uri : UaString
  pub server_index : ℕ

pub record LocalizedText : Type 0 where
  pub locale : UaString
  pub text : UaString

pub record QualifiedName : Type 0 where
  pub namespace_index : ℕ
  pub name : UaString

abbrev pub content : UaString → List ℕ
content null_string = []
content empty_string = []
content (chars bs) = bs

-- The member `identifier.numeric` of a node id, whatever is stored in the union.
abbrev pub numeric_member : Identifier → ℕ
numeric_member (numeric id) = id
numeric_member (string s) = length (content s) % 2 ^ 32
numeric_member (guid g) = g.data1
numeric_member (byte_string s) = length (content s) % 2 ^ 32

-- `UA_NODEID_NULL`
abbrev pub null_node_id : NodeId
null_node_id = record { namespace_index = 0; identifier = numeric 0 }

abbrev pub null_guid : Guid
null_guid = record { data1 = 0; data2 = 0; data3 = 0; data4 = 0 ∷ 0 ∷ 0 ∷ 0 ∷ 0 ∷ 0 ∷ 0 ∷ 0 ∷ [] }

-- `memcmp` on as many bytes of each
unfoldable pub bytes_equal : List ℕ → List ℕ → Bool
bytes_equal [] [] = true
bytes_equal (x ∷ xs) (y ∷ ys) = (x == y) && bytes_equal xs ys
bytes_equal xs ys = false

unfoldable pub string_equal : UaString → UaString → Bool
unfolding bytes_equal
string_equal a b =
    if length (content a) == length (content b) then bytes_equal (content a) (content b) else false

unfoldable pub guid_equal : Guid → Guid → Bool
unfolding bytes_equal
guid_equal a b =
    (a.data1 == b.data1)
    && (a.data2 == b.data2)
    && (a.data3 == b.data3)
    && bytes_equal a.data4 b.data4

-- the test of the tags and the `switch`
unfoldable pub identifier_equal : Identifier → Identifier → Bool
unfolding string_equal guid_equal
identifier_equal (numeric a) (numeric b) = a == b
identifier_equal (string a) (string b) = string_equal a b
identifier_equal (guid a) (guid b) = guid_equal a b
identifier_equal (byte_string a) (byte_string b) = string_equal a b
identifier_equal a b = false

unfoldable pub node_id_equal : NodeId → NodeId → Bool
unfolding identifier_equal
node_id_equal a b =
    (a.namespace_index == b.namespace_index) && identifier_equal a.identifier b.identifier

-- `UA_NodeId_isNull`
unfoldable pub is_null : NodeId → Bool
is_null n = elim n.identifier [ numeric i ↦ (n.namespace_index == 0) && (i == 0) | _ ↦ false ]

-- The values that fit the C types.
abbrev pub IsByte : ℕ → Type 0
IsByte b = b < 2 ^ 8

abbrev pub IsU16 : ℕ → Type 0
IsU16 v = v < 2 ^ 16

abbrev pub IsU32 : ℕ → Type 0
IsU32 v = v < 2 ^ 32

abbrev pub IsU64 : ℕ → Type 0
IsU64 v = v < 2 ^ 64

-- A string in the form in which it is decoded: bytes behind a pointer, at least one, and fewer
-- than an int32_t counts.
abbrev pub IsString : UaString → Type 0
IsString null_string = Unit {0}
IsString empty_string = Unit {0}
IsString (chars bs) = All IsByte bs × (0 < length bs) × (length bs < 2 ^ 31)

pub record IsGuid (g : Guid) : Type 0 where
  pub data1 : IsU32 g.data1
  pub data2 : IsU16 g.data2
  pub data3 : IsU16 g.data3
  pub data4 : All IsByte g.data4
  pub eight : length g.data4 ≡ 8

abbrev pub IsIdentifier : Identifier → Type 0
IsIdentifier (numeric n) = IsU32 n
IsIdentifier (string s) = IsString s
IsIdentifier (guid g) = IsGuid g
IsIdentifier (byte_string s) = IsString s

pub record IsNodeId (n : NodeId) : Type 0 where
  pub namespace_index : IsU16 n.namespace_index
  pub identifier : IsIdentifier n.identifier
