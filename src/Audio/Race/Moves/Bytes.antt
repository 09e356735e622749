-- ===== src/Audio/Race/Moves/Bytes.antt =====
-- Single bytes of a copy: the cell that each goes to, and what writing it does.
use lalah.Base.{ℕ, ◌+◌, ◌%◌, ◌<◌, ◌≤◌, ◌≡◌, ap, ◌∙◌, some, arith}
use native.Mathlib.Nat.{mod-lt, mod-add-mod}
use lalah.Base.Rounds.{wrap_index}
use lalah.Memory.{Memory, update, write_volatile, read_volatile}
use lalah.Audio.Ring.{Shm, ShmAudioBuffer, mask}
use lalah.Audio.Ring.Stream.{IsValid, mask-IsValid, cap_pos}
use lalah.Audio.Race.{byte_index}

around :
    (me : ShmAudioBuffer) (start n i : ℕ)
    → start < me.cap
    → n ≤ me.cap
    → i < n
    → byte_index me start n i ≡ (start + i) % me.cap
unfolding byte_index
around me start n i hs hn hi = ground (arith, wrap_index me.cap (start + i) (omega arith))

-- Byte `i` of a copy at stream position `pos` goes to position `pos + i` modulo the capacity.
pub byte_index_lem :
    {me : ShmAudioBuffer} {shm : Shm}
    → IsValid me shm
    → (pos n i : ℕ) → n ≤ me.cap
    → i < n
    → byte_index me (mask me pos) n i ≡ (pos + i) % me.cap
byte_index_lem {me} v pos n i hn hi =
    ap (λ k. byte_index me k n i) (mask-IsValid v pos)
    ∙ around me (pos % me.cap) n i (mod-lt pos (cap_pos v)) hn hi
    ∙ mod-add-mod pos me.cap i

pub write_volatile_inv :
    (m m' : Memory) (i b : ℕ)
    → write_volatile m i b ≡ some m'
    → (m'.size ≡ m.size) × ((j : ℕ) → m'.cell j ≡ update m.cell i b j)
unfolding write_volatile
write_volatile_inv m m' i b e = (ground arith, λ j. ground arith)

pub read_volatile_inv : (m : Memory) (i b : ℕ) → read_volatile m i ≡ some b → b ≡ m.cell i
unfolding read_volatile
read_volatile_inv m i b e = ground arith
