-- ===== src/Audio/Ring.antt =====
-- v2/core/kernel/kernel_audio.c: the queue of commands, a ring whose two counters wrap around at 2 ^ 32.
use rave_os.Prelude.{
  ℕ, zero, suc, ◌+◌, ◌-◌, ◌%◌, ◌^◌, Bool, true, false, List, [], ◌∷◌, ◌==◌, ltb, if◌then◌else◌,
  get_elem?, set, Option, none, some,
}
use rave_os.Synth.Render.{◌>>=◌}
use rave_os.Audio.Commands.{Command}

-- KERNEL_AUDIO_QUEUE_LEN
abbrev pub queue_len : ℕ
queue_len = 16

-- `g_audio_cmd_buf`, `g_audio_cmd_head` and `g_audio_cmd_tail`
pub record Ring : Type 0 where
  pub buf : List Command
  pub head : ℕ
  pub tail : ℕ

-- What is queued: `tail - head` in 32 bits.
abbrev pub used : Ring → ℕ
used q = (q.tail + 2 ^ 32 - q.head) % 2 ^ 32

-- `try_enqueue`
unfoldable pub try_enqueue : Command → Ring → Bool × Ring
try_enqueue cmd q =
    if ltb (used q) queue_len
    then (true, record q { buf = set q.buf (q.tail % queue_len) cmd; tail = (q.tail + 1) % 2 ^ 32 })
    else (false, q)

-- The loop of `kernel_audio_drain_and_render`: the commands that it takes, in order. Each uses one
-- unit of fuel; `none` is a read outside the buffer or the end of the fuel.
unfoldable pub taken : ℕ → Ring → Option (List Command)
taken zero q = if q.head == q.tail then some [] else none
taken (suc fuel) q =
    let rest = taken fuel (record q { head = (q.head + 1) % 2 ^ 32 }) in
    if q.head == q.tail
    then some []
    else (get_elem? q.buf (q.head % queue_len) >>= λ c. rest >>= λ cs. some (c ∷ cs))

-- Its end: everything is taken.
abbrev pub drained : Ring → Ring
drained q = record q { head = q.tail }

-- The loop of `kernel_audio_release_owner`, with room for `tries` more tries in its 50 ms; `between` is
-- what happens to the ring while it waits.
unfoldable pub enqueue_retrying : Command → ℕ → (Ring → Ring) → Ring → Bool × Ring
unfolding try_enqueue
enqueue_retrying cmd zero between q = try_enqueue cmd q
enqueue_retrying cmd (suc tries) between q =
    let r = try_enqueue cmd q in
    let again = enqueue_retrying cmd tries between (between r.1) in if r.0 then r else again
