-- ===== src/Tests/Pipe.antt =====
-- Examples for the copying of streams, between connections that take a few bytes at a time.
use sshcustom_vpnchain.Base.{
  ℕ, ◌≤◌, ◌≡◌, refl, ◌≢◌, true, false, none, some, List, [], ◌∷◌, ◌++◌, arith, ◌==◌, length, take,
  pos, Bytes, codes,
}
use Prim.Native.Nat.{min}
use sshcustom_vpnchain.Pipe.{
  Writer, Write, out_of_fuel, from_a, from_b, CopyEvent, read, passes, Pipe, write_all,
  write_all_on, pipe_step, pipe_run, pipe_both, is_closed,
}
use sshcustom_vpnchain.Pipe.Written.{write_all_ends}
use sshcustom_vpnchain.Pipe.Delivered.{Delivers, pipe_run-Delivers}
use sshcustom_vpnchain.Pipe.Closing.{quiet_pipe_closes, ended_pipe_closes, running_pipe}
use sshcustom_vpnchain.Base.{false}
use sshcustom_vpnchain.Pipe.Busy.{busy_pipe_stays_open}

-- A connection that takes at most `limit` bytes with one write, and what it has taken.
record Socket : Type 0 where
  limit : ℕ
  got : Bytes

abbrev socket_write : Socket → Bytes → Write × Socket
socket_write s b =
    let n = min s.limit (length b) in
    (record { count = n; failed = s.limit == 0 }, record s { got = s.got ++ take n b })

abbrev sockets : Writer Socket
sockets = record {
  write = socket_write;
  taken = λ s. s.got;
  write-within = λ s b. omega arith;
  taken-write = λ s b. refl;
}

abbrev narrow : Socket
narrow = record { limit = 2; got = [] }

write_all_ends_example :
    ((write_all sockets narrow (codes "hello")).fault ≢ some out_of_fuel)
    × ((write_all sockets narrow (codes "hello")).conn.got
        ≡ [] ++ take (write_all sockets narrow (codes "hello")).total (codes "hello"))
    × ((write_all sockets narrow (codes "hello")).total ≤ 5)
    × ((write_all sockets narrow (codes "hello")).fault ≡ none
        → (write_all sockets narrow (codes "hello")).total ≡ 5)
write_all_ends_example = write_all_ends sockets narrow (codes "hello")

hello_arrives : (write_all sockets narrow (codes "hello")).conn.got ≡ codes "hello"
unfolding write_all write_all_on
hello_arrives = refl

abbrev a_pipe : Pipe Socket
a_pipe = pipe_both (pos 30000) narrow narrow

abbrev dialogue : List CopyEvent
dialogue =
    read from_a (codes "ping") false
    ∷ passes 20000
    ∷ read from_b (codes "pong") false
    ∷ passes 20000
    ∷ read from_a (codes "bye") false
    ∷ []

pipe_run-Delivers_example :
    Delivers sockets from_a a_pipe (pipe_run sockets (pos 30000) dialogue a_pipe) (codes "pingbye")
unfolding pipe_both
pipe_run-Delivers_example = pipe_run-Delivers sockets (pos 30000) from_a dialogue a_pipe refl refl

busy_pipe_stays_open_example :
    is_closed (pipe_run sockets (pos 30000) dialogue a_pipe).phase ≡ false
unfolding pipe_run pipe_step pipe_both write_all write_all_on
busy_pipe_stays_open_example =
    busy_pipe_stays_open sockets (pos 30000) narrow narrow dialogue refl refl

quiet_pipe_closes_example :
    is_closed
      (pipe_run sockets
        (pos 30000)
        (passes 30000 ∷ passes 400 ∷ [])
        (running_pipe sockets (pos 30000) narrow narrow dialogue)).phase
    ≡ true
quiet_pipe_closes_example =
    quiet_pipe_closes sockets (pos 30000) narrow narrow dialogue (passes 30000 ∷ passes 400 ∷ [])
      refl (omega arith)

abbrev ended : List CopyEvent
ended = read from_a (codes "ping") true ∷ []

ended_pipe_closes_example :
    is_closed
      (pipe_run sockets
        (pos 30000)
        (read from_b (codes "pong") false ∷ passes 400 ∷ [])
        (running_pipe sockets (pos 30000) narrow narrow ended)).phase
    ≡ true
unfolding pipe_run pipe_step pipe_both write_all write_all_on
ended_pipe_closes_example =
    ended_pipe_closes sockets (pos 30000) narrow narrow ended
      (read from_b (codes "pong") false ∷ passes 400 ∷ []) refl (omega arith)
