-- ===== src/LogBuf/Tests.antt =====
-- A buffer of four bytes that three writes pass through.
use kotakpasir.Base.{◌-◌, ◌≡◌, refl, true, some, List, [], ◌∷◌, length, take, nat_eq, arith}
use kotakpasir.Base.Int.{pos, is_pos, to_ℕ}
use kotakpasir.LogBuf.{Buffer, Channel, stdout, stderr, new, write, subscribe, channel_size}
use kotakpasir.LogBuf.Eviction.{total}
use kotakpasir.LogBuf.History.{Chunk, write_all, history, IsNewest, write_all-IsNewest}
use kotakpasir.LogBuf.Subscribers.{channel, received, write_all-channel}

abbrev three : List Chunk
three =
    record { stream = stdout; bytes = 97 ∷ 98 ∷ []; at = 1 }
    ∷ record { stream = stderr; bytes = 99 ∷ []; at = 2 }
    ∷ record { stream = stdout; bytes = 100 ∷ 101 ∷ []; at = 3 }
    ∷ []

abbrev long : Chunk
long = record { stream = stdout; bytes = 1 ∷ 2 ∷ 3 ∷ 4 ∷ 5 ∷ []; at = 4 }

abbrev small : Buffer
small = new (pos 4)

-- The oldest of the three chunks is gone.
three-bytes : (write_all small three).bytes ≡ 3
unfolding write_all write new
three-bytes = refl

write_all-IsNewest_example :
    ((write_all small three).bytes ≡ total (write_all small three).entries)
    × IsNewest (to_ℕ (pos 4)) (history three) (write_all small three).entries
write_all-IsNewest_example = write_all-IsNewest (pos 4) three refl

abbrev watched : Buffer
watched = (subscribe small).1

abbrev first_channel : Channel
first_channel = record { id = 0; queue = [] }

watched_on : is_pos watched.max ≡ true
unfolding subscribe new
watched_on = refl

watched-channel : channel 0 watched ≡ some first_channel
unfolding channel subscribe new nat_eq
watched-channel = refl

write_all-channel_example :
    channel 0 (write_all watched three)
    ≡ some
        (received first_channel (take (channel_size - length first_channel.queue) (history three)))
write_all-channel_example =
    write_all-channel 0 three watched first_channel watched_on (omega arith) watched-channel
