-- ===== src/SwitchBuffer.antt =====
-- The byte buffers of FreeSWITCH (switch_buffer.h), which the module calls and does not implement:
-- the calls as an interface, what their documentation promises as laws, and a list that meets them.
use mod_audio_stream.Common.{
  ℕ, ◌+◌, ◌≡◌, refl, ap, Bool, true, false, ◌&&◌, not, List, [], ◌++◌, arith, length, take, drop,
  ltb, if◌then◌else◌,
}

pub record SwitchBuffer (B : Type 0) : Type 0 where
  -- switch_buffer_create_dynamic(blocksize, start_len, max_len)
  pub create_dynamic : ℕ → ℕ → ℕ → B
  -- switch_buffer_read: the bytes read, as many as are there and asked for
  pub read : B → ℕ → List ℕ × B
  -- switch_buffer_write: the bytes in use afterwards, or 0 if there is no space
  pub write : B → List ℕ → ℕ × B
  pub inuse : B → ℕ
  -- switch_buffer_zero
  pub zero_out : B → B

-- A first-in, first-out store of bytes, of at most `max_len` bytes unless that is 0.
pub record IsFifo {B : Type 0} (o : SwitchBuffer B) : Type 0 where
  pub contents : B → List ℕ
  pub max_len : B → ℕ
  pub fits : B → List ℕ → Bool
  pub fits-eq :
      (b : B) (d : List ℕ)
      → fits b d ≡ not (ltb 0 (max_len b) && ltb (max_len b) (length (contents b) + length d))
  pub contents-create : (block start most : ℕ) → contents (o.create_dynamic block start most) ≡ []
  pub max_len-create : (block start most : ℕ) → max_len (o.create_dynamic block start most) ≡ most
  pub read-data : (b : B) (n : ℕ) → (o.read b n).0 ≡ take n (contents b)
  pub contents-read : (b : B) (n : ℕ) → contents (o.read b n).1 ≡ drop n (contents b)
  pub max_len-read : (b : B) (n : ℕ) → max_len (o.read b n).1 ≡ max_len b
  pub write-fits :
      (b : B) (d : List ℕ) → fits b d ≡ true → (o.write b d).0 ≡ length (contents b) + length d
  pub contents-write :
      (b : B) (d : List ℕ) → fits b d ≡ true → contents (o.write b d).1 ≡ contents b ++ d
  pub write-full : (b : B) (d : List ℕ) → fits b d ≡ false → (o.write b d).0 ≡ 0
  pub contents-write_full :
      (b : B) (d : List ℕ) → fits b d ≡ false → contents (o.write b d).1 ≡ contents b
  pub max_len-write : (b : B) (d : List ℕ) → max_len (o.write b d).1 ≡ max_len b
  pub inuse-eq : (b : B) → o.inuse b ≡ length (contents b)
  pub contents-zero : (b : B) → contents (o.zero_out b) ≡ []
  pub max_len-zero : (b : B) → max_len (o.zero_out b) ≡ max_len b

-- A list of bytes with its limit.
pub record ByteQueue : Type 0 where
  pub bytes : List ℕ
  pub limit : ℕ

abbrev pub has_room : ByteQueue → List ℕ → Bool
has_room b d = not (ltb 0 b.limit && ltb b.limit (length b.bytes + length d))

abbrev pub byte_queue : SwitchBuffer ByteQueue
byte_queue = record {
  create_dynamic = λ block start most. record { bytes = []; limit = most };
  read = λ b n. (take n b.bytes, record b { bytes = drop n b.bytes });
  write = λ b d.
      if has_room b d
      then (length b.bytes + length d, record b { bytes = b.bytes ++ d })
      else (0, b);
  inuse = λ b. length b.bytes;
  zero_out = λ b. record b { bytes = [] };
}

pub write_fits :
    (b : ByteQueue) (d : List ℕ)
    → has_room b d ≡ true
    → byte_queue.write b d ≡ (length b.bytes + length d, record b { bytes = b.bytes ++ d })
write_fits b d h = rw h

pub write_full : (b : ByteQueue) (d : List ℕ) → has_room b d ≡ false → byte_queue.write b d ≡ (0, b)
write_full b d h = rw h

pub limit-write : (b : ByteQueue) (d : List ℕ) → (byte_queue.write b d).1.limit ≡ b.limit
limit-write b d = ground arith

abbrev pub byte_queue-IsFifo : IsFifo byte_queue
byte_queue-IsFifo = record {
  contents = λ b. b.bytes;
  max_len = λ b. b.limit;
  fits = has_room;
  fits-eq = λ b d. refl;
  contents-create = λ block start most. refl;
  max_len-create = λ block start most. refl;
  read-data = λ b n. refl;
  contents-read = λ b n. refl;
  max_len-read = λ b n. refl;
  write-fits = λ b d h. ap (λ r. r.0) (write_fits b d h);
  contents-write = λ b d h. ap (λ r. r.1.bytes) (write_fits b d h);
  write-full = λ b d h. ap (λ r. r.0) (write_full b d h);
  contents-write_full = λ b d h. ap (λ r. r.1.bytes) (write_full b d h);
  max_len-write = limit-write;
  inuse-eq = λ b. refl;
  contents-zero = λ b. refl;
  max_len-zero = λ b. refl;
}
