-- ===== src/Block/Bytes.antt =====
-- What the library writes are bytes.
use mem_sentry.Base.{
  ℕ, zero, suc, ◌+◌, ◌-◌, Bool, ◌&&◌, inl, inr, ltb, leb, Bool-cases, ==_false, eq_or_ne,
}
use mem_sentry.Memory.{Memory, store}
use mem_sentry.Memory.Laws.{byte-lt}
use mem_sentry.Block.{BlockHeader, chunk_length, write_header, write_red_zone, init_block}
use mem_sentry.Block.RedZone.{IsBytes}

pub store-IsBytes : (n : ℕ) (m : Memory) (a v : ℕ) → IsBytes m → IsBytes (store n m a v)
unfolding store
store-IsBytes n m a v bytes q = elim (Bool-cases (leb a q && ltb q (a + n))) [
  | inl inside ↦ rw inside (byte-lt (q - a) v)
  | inr outside ↦ rw outside (bytes q)
]

write_header-IsBytes :
    (m : Memory) (h : ℕ) (header : BlockHeader) → IsBytes m → IsBytes (write_header m h header)
unfolding write_header
write_header-IsBytes m h header bytes = search (bytes, store-IsBytes) depth 14

write_red_zone-IsBytes :
    (rounds magic footer_ptr footer_size i : ℕ) (m : Memory)
    → IsBytes m
    → IsBytes (write_red_zone rounds magic footer_ptr footer_size i m)
unfolding write_red_zone
write_red_zone-IsBytes zero magic footer_ptr footer_size i m bytes = bytes
write_red_zone-IsBytes (suc rounds) magic footer_ptr footer_size i m bytes =
    elim (Bool-cases (ltb i footer_size)) [
      | inl more ↦ rw more (
          write_red_zone-IsBytes rounds magic footer_ptr footer_size (i + 8) _
            (store-IsBytes (chunk_length footer_size i) m (footer_ptr + i) magic bytes))
      | inr over ↦ rw over bytes
    ]

pub init_block-IsBytes :
    (general : ℕ) (m : Memory) (raw size alignment footer alloc_id tag : ℕ) (canary : Bool)
    (thread_id : ℕ)
    → IsBytes m
    → IsBytes (init_block general m raw size alignment footer alloc_id tag canary thread_id).1
unfolding init_block
init_block-IsBytes general m raw size alignment footer alloc_id tag canary thread_id bytes =
    elim (eq_or_ne raw 0) [
      | inl null ↦ rw null bytes
      | inr mapped ↦ elim (Bool-cases (canary && leb 8 footer)) [
        | inl on ↦
            rw (==_false raw 0 mapped, on)
              (write_red_zone-IsBytes footer _ _ footer 0 _
                (store-IsBytes 4 _ _ _ (write_header-IsBytes m raw _ bytes)))
        | inr off ↦
            rw (==_false raw 0 mapped, off)
              (store-IsBytes 4 _ _ _ (write_header-IsBytes m raw _ bytes))
      ]
    ]
