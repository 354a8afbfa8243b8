-- ===== src/LogBuf/Subscribers.antt =====
-- What subscribers of a buffer receive.
use kotakpasir.Base.{
  ℕ, suc, ◌+◌, ◌-◌, ◌≤◌, zero, take, ◌≡◌, refl, ap, ◌∙◌, true, false, List, [], ◌∷◌, ◌++◌, map,
  length, length-append, is_empty, if◌then◌else◌, ◌==◌, nat_eq, arith, Bool-cases, Option, none,
  some, inl, inr,
}
use kotakpasir.Base.Int.{is_pos}
use kotakpasir.LogBuf.{
  Entry, Channel, Buffer, channel_size, offer, append, write, subscribe, cancel, remove_channel,
}
use kotakpasir.LogBuf.History.{Chunk, entry, history, write_all, write_max}
use mathlib.Core.List.{append_assoc, append-nil}

-- The channel of a subscription that is not cancelled.
find_channel : ℕ → List Channel → Option Channel
find_channel id [] = none
find_channel id (c ∷ cs) = if c.id == id then some c else find_channel id cs

unfoldable pub channel : ℕ → Buffer → Option Channel
unfolding find_channel
channel id b = find_channel id b.subs

find_channel-map :
    (id : ℕ) (e : Entry) (cs : List Channel) (c : Channel)
    → find_channel id cs ≡ some c
    → find_channel id (map (offer e) cs) ≡ some (offer e c)
unfolding find_channel offer
find_channel-map id e [] c h = cc
find_channel-map id e (x ∷ cs) c h = ground (arith, find_channel-map id e cs c)

write-channel :
    (id : ℕ) (ch : Chunk) (b : Buffer) (c : Channel)
    → is_pos b.max ≡ true
    → is_empty ch.bytes ≡ false
    → channel id b ≡ some c
    → channel id (write ch.stream ch.bytes ch.at b) ≡ some (offer (entry ch) c)
unfolding channel write append
write-channel id ch b c on full h = rw (on, full) (find_channel-map id (entry ch) b.subs c h)

write_empty :
    (ch : Chunk) (b : Buffer) → is_empty ch.bytes ≡ true → write ch.stream ch.bytes ch.at b ≡ b
unfolding write
write_empty ch b empty = ground arith

abbrev pub received : Channel → List Entry → Channel
received c es = record c { queue = c.queue ++ es }

offer-take :
    (n : ℕ) (e : Entry) (es : List Entry) (c : Channel)
    → n + length c.queue ≡ channel_size
    → (m : ℕ) × (m + length (offer e c).queue ≡ channel_size)
      × (received (offer e c) (take m es) ≡ received c (take n (e ∷ es)))
unfolding offer
offer-take zero e es c room = (0, ground arith, ground arith)
offer-take (suc n) e es c room = (
  n,
  ground (arith, length-append c.queue (e ∷ [])),
  ground (arith, append_assoc c.queue (e ∷ []) (take n es)),
)

write_all-channel_room :
    (id : ℕ) (cs : List Chunk) (b : Buffer) (c : Channel) (n : ℕ)
    → is_pos b.max ≡ true
    → n + length c.queue ≡ channel_size
    → channel id b ≡ some c
    → channel id (write_all b cs) ≡ some (received c (take n (history cs)))
unfolding write_all
write_all-channel_room id [] b c zero on room h = rw append-nil h
write_all-channel_room id [] b c (suc n) on room h = rw append-nil h
write_all-channel_room id (ch ∷ cs) b c n on room h = elim (Bool-cases (is_empty ch.bytes)) [
  | inl empty ↦ rw (write_empty ch b empty, empty) (write_all-channel_room id cs b c n on room h)
  | inr full ↦
      let (m, room', same) = offer-take n (entry ch) (history cs) c room in
      rw (full, ← same)
        (write_all-channel_room id cs _ _ m (ap is_pos (write_max ch b) ∙ on) room'
          (write-channel id ch b c on full h))
]

-- A subscriber that reads nothing while chunks are written gets the first of them, in the order of
-- the writes and up to the 64 places of its channel, behind what waited there; the rest is dropped,
-- and no writer waits.
pub write_all-channel :
    (id : ℕ) (cs : List Chunk) (b : Buffer) (c : Channel)
    → is_pos b.max ≡ true
    → length c.queue ≤ channel_size
    → channel id b ≡ some c
    → channel id (write_all b cs)
      ≡ some (received c (take (channel_size - length c.queue) (history cs)))
write_all-channel id cs b c on fits h =
    write_all-channel_room id cs b c (channel_size - length c.queue) on (omega arith) h

channel-subscribe :
    (b : Buffer)
    → channel (subscribe b).0 (subscribe b).1 ≡ some (record { id = (subscribe b).0; queue = [] })
unfolding channel subscribe
channel-subscribe b = ground arith

find_channel-remove : (id : ℕ) (cs : List Channel) → find_channel id (remove_channel id cs) ≡ none
unfolding find_channel remove_channel
find_channel-remove id [] = refl
find_channel-remove id (c ∷ cs) = ground (arith, find_channel-remove id cs)

channel-cancel : (id : ℕ) (b : Buffer) → channel id (cancel id b) ≡ none
unfolding channel cancel
channel-cancel id b = find_channel-remove id b.subs
