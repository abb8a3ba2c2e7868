-- ===== src/Binary/Stream.antt =====
-- The buffer that the encoding functions share, and the way in which they are chained by
-- `retval |= f(…, offset)`: an error does not stop the functions that follow.
use opc_ua.Common.{
  ℕ, zero, suc, ◌+◌, ◌*◌, ◌/◌, ◌%◌, Bool, true, false, List, [], ◌∷◌, bit_or, bit_and, ltb, ◌==◌,
  if◌then◌else◌,
}
use opc_ua.Status.{good}

-- A `UA_ByteString` and the position `*offset` in it. A `size_t` does not wrap below the size of
-- the memory, so the position is a plain number.
pub record Stream : Type 0 where
  pub bytes : List ℕ
  pub offset : ℕ

-- The status that is returned and the stream that is left. `overrun` is a write behind the end
-- of the buffer, which C leaves undefined.
pub data Outcome : Type 0 where
  done : ℕ → Stream → Outcome
  overrun : Outcome

abbrev pub Encoder : Type 0
Encoder = Stream → Outcome

abbrev pub or_status : ℕ → Outcome → Outcome
or_status a (done b s) = done (bit_or a b) s
or_status a overrun = overrun

abbrev pub continue_with : Outcome → Encoder → Outcome
continue_with (done a s) f = or_status a (f s)
continue_with overrun f = overrun

-- `retval = e(…); retval |= f(…);`
infixl 5 ◌then_encode◌
unfoldable pub ◌then_encode◌ : Encoder → Encoder → Encoder
◌then_encode◌ e f s = continue_with (e s) f

-- Nothing is encoded.
abbrev pub skip : Encoder
skip s = done good s

-- A decoder into zeroed memory: what it returns, what it has stored, and the stream.
pub record Decoded {ℓ} (A : Type ℓ) : Type ℓ where
  pub status : ℕ
  pub value : A
  pub stream : Stream

abbrev pub Decoder {ℓ} : Type ℓ → Type ℓ
Decoder A = Stream → Decoded A

-- `retval |= d(…, &x); …` where the rest reads `x`, also if `d` failed.
infixl 5 ◌>>=◌
unfoldable pub ◌>>=◌ {ℓ κ} : {A : Type ℓ} {B : Type κ} → Decoder A → (A → Decoder B) → Decoder B
◌>>=◌ d f s =
    let r = d s in
    let q = f r.value r.stream in
    record { status = bit_or r.status q.status; value = q.value; stream = q.stream }

abbrev pub pure {ℓ} : {A : Type ℓ} → A → Decoder A
pure v s = record { status = good; value = v; stream = s }

abbrev pub fail {ℓ} : {A : Type ℓ} → ℕ → A → Decoder A
fail status v s = record { status = status; value = v; stream = s }

-- `memcpy(&data[i], cs, …)`, inside the buffer
abbrev pub store : List ℕ → ℕ → List ℕ → List ℕ
store [] i cs = []
store (x ∷ xs) (suc i) cs = x ∷ store xs i cs
store (x ∷ xs) zero [] = x ∷ xs
store (x ∷ xs) zero (c ∷ cs) = c ∷ store xs zero cs

-- The `n` lowest bytes of a word, lowest first, and the word that bytes stand for.
abbrev pub to_le : ℕ → ℕ → List ℕ
to_le zero v = []
to_le (suc n) v = (v % 256) ∷ to_le n (v / 256)

abbrev pub from_le : List ℕ → ℕ
from_le [] = 0
from_le (b ∷ bs) = b + 256 * from_le bs

-- Whether `UA_malloc(size)`, called while the stream stands at `offset`, returns memory. No two
-- calls of one decoding stand at one offset.
pub record Allocator : Type 0 where
  pub succeeds : ℕ → ℕ → Bool

abbrev pub encode_if : Bool → Encoder → Encoder
encode_if true e = e
encode_if false e = skip

-- A member that is not decoded keeps its zeroed value.
abbrev pub decode_if {ℓ} : {A : Type ℓ} → Bool → A → Decoder A → Decoder A
decode_if true zeroed d = d
decode_if false zeroed d = pure zeroed

-- `retval = d(…, &x); if(retval != UA_STATUSCODE_GOOD) return …; …` where the rest reads `x`
unfoldable pub checked {ℓ κ} :
    {A : Type ℓ} {B : Type κ} → Decoder A → (ℕ → ℕ) → B → (A → Decoder B) → Decoder B
checked d returned zeroed f s =
    let r = d s in
    if r.status == good
    then f r.value r.stream
    else record { status = returned r.status; value = zeroed; stream = r.stream }

-- `if(retval != UA_STATUSCODE_GOOD) deleteMembers(dst);` at the end of a decoder
unfoldable pub on_error {ℓ} : {A : Type ℓ} → (A → A) → Decoder A → Decoder A
on_error delete_members d s =
    let r = d s in if r.status == good then r else record r { value = delete_members r.value }

-- `v & m` as a condition
abbrev pub test_bit : ℕ → ℕ → Bool
test_bit v m = ltb 0 (bit_and v m)
