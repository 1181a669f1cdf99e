-- ===== src/Synth/Filter.antt =====
-- kernel/audio/synth.c: the shared filter and its settings. A C `int` is an unbounded integer here:
-- the coefficients are below 2 ^ 15 and the state is clamped to 2 ^ 16, so that every sum fits 32 bits
-- for the inputs that the mixer gives. The count of silent samples is unbounded too.
use rave_os.Prelude.{
  true, length, ltb, suc, ℕ, zero, suc, true, ◌+◌, ◌-◌, ◌/◌, ◌%◌, ◌^◌, Bool, false, Option, none,
  some, List, [], ◌∷◌, ◌==◌, ◌&&◌, not, if◌then◌else◌, get_elem?, set, replicate, ℤ, pos, negsuc,
  ◌+ℤ◌, ◌-ℤ◌, ◌*ℤ◌, ltb_ℤ,
}
use rave_os.Synth.Tables.{f_coeff, q_coeff}
use rave_os.Synth.Voice.{clamped}

-- SYNTH_FILTER_STATE_MAX, SYNTH_FILTER_SILENCE_HISTORY_LEN
abbrev pub state_max : ℕ
state_max = 65536

abbrev pub history_len : ℕ
history_len = 512

-- `struct synth_filter_state`, the silence history and the global settings.
pub record Filter : Type 0 where
  pub lp : ℤ
  pub bp : ℤ
  pub history : List (ℤ × ℤ)
  pub hist_count : ℕ
  pub cutoff_index : ℕ
  pub res_index : ℕ
  pub mode_mask : ℕ

abbrev pub fresh_filter : Filter
fresh_filter = record {
  lp = pos 0;
  bp = pos 0;
  history = replicate history_len (pos 0, pos 0);
  hist_count = 0;
  cutoff_index = 128;
  res_index = 0;
  mode_mask = 1;
}

-- What `synth_init` resets of it.
abbrev pub reset : Filter → Filter
reset st = record st { lp = pos 0; bp = pos 0; hist_count = 0 }

-- `synth_set_filter_cutoff`, `synth_set_filter_resonance` and `synth_set_filter_mode`
unfoldable pub set_cutoff : ℤ → Filter → Filter
set_cutoff cutoff st = record st { cutoff_index = clamped 0 255 cutoff }

unfoldable pub set_resonance : ℤ → Filter → Filter
set_resonance resonance st = record st { res_index = clamped 0 15 resonance }

unfoldable pub set_mode : ℤ → Filter → Filter
set_mode mode st = record st { mode_mask = clamped 0 7 mode }

-- `>>` on a C `int` rounds down.
abbrev pub shift_right : ℕ → ℤ → ℤ
shift_right k (pos n) = pos (n / 2 ^ k)
shift_right k (negsuc n) = negsuc (n / 2 ^ k)

abbrev pub eq_ℤ : ℤ → ℤ → Bool
eq_ℤ a b = not (ltb_ℤ a b) && not (ltb_ℤ b a)

-- Whether the state is one of the first `seen` in the history, the loop stopping at the first that is;
-- `none` is a read after the arrays.
unfoldable pub seen_before : ℤ → ℤ → ℕ → List (ℤ × ℤ) → Option Bool
seen_before lp bp zero hs = some false
seen_before lp bp (suc seen) [] = none
seen_before lp bp (suc seen) (h ∷ hs) =
    let rest = seen_before lp bp seen hs in if eq_ℤ h.0 lp && eq_ℤ h.1 bp then some true else rest

-- The clamp to the largest state.
abbrev pub limited : ℤ → ℤ → ℤ → ℤ
limited lo hi a = if ltb_ℤ hi a then hi else if ltb_ℤ a lo then lo else a

abbrev pub state_limited : ℤ → ℤ
state_limited a = limited (negsuc (state_max - 1)) (pos state_max) a

-- A state that was not seen goes into its slot; `none` is a write outside the arrays.
unfoldable pub recorded : ℤ → ℤ → Filter → Option Filter
recorded lp bp st =
    let slot = st.hist_count % history_len in
    if ltb slot (length st.history)
    then some (record st {
      lp = lp;
      bp = bp;
      history = set st.history slot (lp, bp);
      hist_count = st.hist_count + 1;
    })
    else none

abbrev pub if_seen : Option Bool → ℤ → ℤ → Filter → Option Filter
if_seen none lp bp st = none
if_seen (some true) lp bp st = some (record st { lp = pos 0; bp = pos 0; hist_count = 0 })
if_seen (some false) lp bp st = recorded lp bp st

-- The new state before the clamp: it breaks a limit cycle once the input is silent.
unfoldable pub settled : ℤ → ℤ → ℤ → Filter → Option Filter
unfolding seen_before recorded
settled input lp bp st =
    if not (eq_ℤ input (pos 0))
    then some (record st { lp = lp; bp = bp; hist_count = 0 })
    else let seen = if ltb st.hist_count history_len then st.hist_count else history_len in
      if_seen (seen_before lp bp seen st.history) lp bp st

abbrev pub clamp_state : Filter → Filter
clamp_state st = record st { lp = state_limited st.lp; bp = state_limited st.bp }

-- The outputs that the mode selects.
abbrev pub mixed : ℕ → ℤ → ℤ → ℤ → ℤ
mixed mask lp bp hp =
    (if mask % 2 == 1 then lp else pos 0)
    +ℤ (if mask / 2 % 2 == 1 then bp else pos 0)
    +ℤ (if mask / 4 % 2 == 1 then hp else pos 0)

-- The clamped state and the output.
abbrev pub put_out : ℕ → ℤ → Option Filter → Option (ℤ × Filter)
put_out mask hp none = none
put_out mask hp (some st) = let st' = clamp_state st in some (mixed mask st'.lp st'.bp hp, st')

-- `synth_filter_process_sample` with the two coefficients.
unfoldable pub process_with : ℕ → ℕ → ℤ → Filter → Option (ℤ × Filter)
unfolding settled ◌+ℤ◌ ◌-ℤ◌ ◌*ℤ◌
process_with f q input st =
    let hp = input -ℤ st.lp -ℤ shift_right 14 (pos q *ℤ st.bp) in
    let bp = st.bp +ℤ shift_right 14 (pos f *ℤ hp) in
    let lp = st.lp +ℤ shift_right 14 (pos f *ℤ bp) in
    put_out st.mode_mask hp (settled input lp bp st)

abbrev pub coefficients : Option ℕ → Option ℕ → ℤ → Filter → Option (ℤ × Filter)
coefficients none q input st = none
coefficients (some f) none input st = none
coefficients (some f) (some q) input st = process_with f q input st

-- With those of the settings.
unfoldable pub process_sample : ℤ → Filter → Option (ℤ × Filter)
unfolding process_with
process_sample input st =
    coefficients (get_elem? f_coeff st.cutoff_index) (get_elem? q_coeff st.res_index) input st
