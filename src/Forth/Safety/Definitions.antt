-- ===== src/Forth/Safety/Definitions.antt =====
-- kernel/forth/forth.c, the other tokens of `handle_compile_token` and the invariant.
use rave_os.Prelude.{
  Every, length-take, get_elem?-lt, take, ltb, ℕ, suc, ◌+◌, ◌≤◌, ◌<◌, ◌≡◌, refl, Bool, true, false,
  Option, none, some, List, [], ◌∷◌, ◌++◌, ◌==◌, if◌then◌else◌, leb, map, get_elem?, length,
  length-append, get_elem?-append_left, get_elem?-append_last, arith, Bool-cases, inl, inr, subst,
  sym, ap, codes, eq_of_some, ◌∙◌,
}
use rave_os.Forth.Numbers.{parse_int, str_eq_ci}
use rave_os.Forth.Vm.{
  Instr, Vm, Word, Ctrl, exit, literal, call_primitive, call_word, has_error, code_size, max_words,
  word_name_max,
}
use rave_os.Forth.Words.{Primitive, primitives}
use rave_os.Forth.Compile.{
  instr, register, compiled_word, compile_semicolon, find_name, primitive_names, word_names,
  compile_call, compile_primitive, compile_number, compile_plain, handle_compile_token,
}
use rave_os.Forth.Safety.Code.{Safe, Safe-mono, Body}
use rave_os.Forth.Safety.Fine.{NameFits, has_error-set_error}
use rave_os.Forth.Safety.Open.{Open, Open-Body}
use rave_os.Forth.Safety.Valid.{Inv, Comp, Comp-Valid, Comp-Inv, set_error-Inv}
use rave_os.Forth.Safety.Compiling.{
  emitted, emitted-Valid, forth_emit-Inv, forth_emit_full, forth_emit_room,
}
use rave_os.Forth.Safety.Tokens.{
  compile_if-Inv, compile_else-Inv, compile_then-Inv, compile_begin-Inv, compile_until-Inv,
}

-- A name that is found is in the table.
pub find_name-lt :
    (i : ℕ) (names : List (List ℕ)) (token : List ℕ) (j : ℕ)
    → find_name i names token ≡ some j
    → j < i + length names
unfolding find_name
find_name-lt i [] token j e = cc e
find_name-lt i (n ∷ ns) token j e =
    found (str_eq_ci token n) (find_name (i + 1) ns token) e
      (λ e'. omega (arith, find_name-lt (i + 1) ns token j e'))
  where
    found :
        (b : Bool) (rest : Option ℕ)
        → (if b then some i else rest) ≡ some j
        → (rest ≡ some j → j < i + suc (length ns))
        → j < i + suc (length ns)
    found true rest e' k = omega (arith, eq_of_some e')
    found false rest e' k = k e'

module _ {A : Type 0} (f : A → List ℕ) where
  pub length-map : (xs : List A) → length (map f xs) ≡ length xs
  length-map [] = refl
  length-map (x ∷ xs) = ap suc (length-map xs)

pub primitive_lt :
    (i : ℕ) (token : List ℕ) → find_name 0 primitive_names token ≡ some i → i < length primitives
unfolding primitive_names
primitive_lt i token e = omega (
  arith,
  find_name-lt 0 primitive_names token i e,
  length-map (λ (p : Primitive). p.name) primitives,
)

named :
    (ws : List Word) (w : Word) → Every NameFits ws → NameFits w → Every NameFits (ws ++ (w ∷ []))
named [] w h k = (k, tt)
named (v ∷ ws) w h k = (h.0, named ws w h.1 k)

-- A finished definition enters the dictionary.
register-Inv :
    {vm : Vm}
    → Comp vm (length vm.code)
    → length vm.code < 2048
    → vm.ctrl_stack ≡ []
    → length vm.dict < 64
    → Inv (register (emitted vm exit 0))
register-Inv {vm} c room closed free = record {
  valid = record {
    dstack = c.dstack;
    mem = c.mem;
    stored = let s = c.stored in (s.0, s.1, s.2, s.3, named vm.dict (compiled_word vm) s.4 short);
    code = omega (arith, grown);
    dict = omega (arith, more);
    rstack = (Comp-Valid c).rstack;
    ctrl_stack = c.ctrl_stack;
    sealed_le = omega arith;
    words = words;
  };
  quiet = λ _. record { idle = c.idle; closed = λ _. closed; open_code = λ e. cc e };
}
  where
    code' : List Instr
    code' = vm.code ++ (instr exit 0 ∷ [])

    short : NameFits (compiled_word vm)
    short = omega (arith, length-take word_name_max vm.compile_name)

    grown : length code' ≡ length vm.code + 1
    grown = length-append vm.code (instr exit 0 ∷ [])

    more : length (vm.dict ++ (compiled_word vm ∷ [])) ≡ length vm.dict + 1
    more = length-append vm.dict (compiled_word vm ∷ [])

    body : Body code' (length vm.dict) vm.compile_start (length vm.code + 1)
    body = Open-Body c.start_le (
        subst (λ l. Open vm.code (length vm.dict) vm.compile_start l (length vm.code)) closed
          c.open_code)

    this : Safe code' (length vm.dict) (length vm.code + 1) vm.compile_start
    this = record {
      start = vm.compile_start;
      end = length vm.code + 1;
      body = body;
      from_start = omega arith;
      before_end = omega (arith, c.start_le);
      sealed = omega arith;
    }

    old :
        (j : ℕ) (w : Word)
        → get_elem? vm.dict j ≡ some w
        → Safe code' (length (vm.dict ++ (compiled_word vm ∷ []))) (length code') w.code_start
    old j w e =
        Safe-mono
          (λ k lt. get_elem?-append_left vm.code (instr exit 0 ∷ []) k (omega (arith, c.start_le)))
          (omega (arith, more)) (omega (arith, grown, c.start_le)) (c.words j w e)

    not_before : (j : ℕ) → ltb j (length vm.dict) ≡ false → length vm.dict ≤ j
    not_before j h = ground arith

    new :
        (j : ℕ) (w : Word)
        → j ≡ length vm.dict
        → get_elem? (vm.dict ++ (compiled_word vm ∷ [])) j ≡ some w
        → Safe code' (length (vm.dict ++ (compiled_word vm ∷ []))) (length code') w.code_start
    new j w at e =
        let e' = subst (λ n. get_elem? (vm.dict ++ (compiled_word vm ∷ [])) n ≡ some w) at e in
        let same = eq_of_some (sym (get_elem?-append_last vm.dict (compiled_word vm)) ∙ e') in
        subst
          (λ (v : Word).
            Safe code' (length (vm.dict ++ (compiled_word vm ∷ []))) (length code') v.code_start)
          same (Safe-mono (λ k lt. refl) (omega (arith, more)) (omega (arith, grown)) this)

    words :
        (j : ℕ) (w : Word)
        → get_elem? (vm.dict ++ (compiled_word vm ∷ [])) j ≡ some w
        → Safe code' (length (vm.dict ++ (compiled_word vm ∷ []))) (length code') w.code_start
    words j w e = elim (Bool-cases (ltb j (length vm.dict))) [
      | inl lt ↦
          old j w (sym (get_elem?-append_left vm.dict (compiled_word vm ∷ []) j (ground arith)) ∙ e)
      | inr ge ↦
          new j w
            (omega
              (arith, get_elem?-lt (vm.dict ++ (compiled_word vm ∷ [])) j e, more, not_before j ge))
            e
    ]

if-Inv : (b : Bool) {x y : Vm} → (b ≡ true → Inv x) → (b ≡ false → Inv y) → Inv (if b then x else y)
if-Inv true h k = h refl
if-Inv false h k = k refl

module _ {vm : Vm} (no_error : has_error vm ≡ false) (c : Comp vm (length vm.code)) where
  compile_semicolon-Inv : Inv (compile_semicolon vm)
  unfolding compile_semicolon
  compile_semicolon-Inv = elim (Bool-cases (leb code_size (length vm.code))) [
    | inl full ↦
        rw (forth_emit_full vm exit 0 full, has_error-set_error vm _ _)
          (set_error-Inv vm (codes "CODE FULL") refl (Comp-Valid c))
    | inr room ↦
        rw (forth_emit_room vm exit 0 room, no_error)
          (if-Inv (length vm.ctrl_stack == 0)
            (λ closed.
              if-Inv (leb max_words (length vm.dict))
                (λ _.
                  set_error-Inv (emitted vm exit 0) (codes "DICT FULL") refl
                    (emitted-Valid exit 0 c (ground arith)))
                (λ free.
                  register-Inv c (ground arith) (none_open vm.ctrl_stack closed) (ground arith)))
            (λ _.
              set_error-Inv (emitted vm exit 0) (codes "UNBALANCED CONTROL") refl
                (emitted-Valid exit 0 c (ground arith))))
  ]
    where
      none_open : (stack : List Ctrl) → (length stack == 0) ≡ true → stack ≡ []
      none_open [] h = refl
      none_open (x ∷ stack) h = absurd (ground arith)

  compile_plain-Inv : (token : List ℕ) → Inv (compile_plain token vm)
  unfolding compile_plain
  compile_plain-Inv token = number (parse_int token)
    where
      call : (o : Option ℕ) → find_name 0 (word_names vm) token ≡ o → Inv (compile_call o vm)
      call none e = set_error-Inv vm (codes "UNKNOWN") refl (Comp-Valid c)
      call (some i) e = forth_emit-Inv call_word i c (omega arith) (
          omega (
            arith,
            find_name-lt 0 (word_names vm) token i e,
            length-map (λ (w : Word). w.name) vm.dict,
          ))

      primitive :
          (o : Option ℕ)
          → find_name 0 primitive_names token ≡ o
          → Inv (compile_primitive o token vm)
      primitive none e = call (find_name 0 (word_names vm) token) refl
      primitive (some i) e =
          forth_emit-Inv call_primitive i c (omega arith) (primitive_lt i token e)

      number : (o : Option ℕ) → Inv (compile_number o token vm)
      number none = primitive (find_name 0 primitive_names token) refl
      number (some n) = forth_emit-Inv literal n c (omega arith) tt

  named-Inv :
      (name : List ℕ)
      → length name ≤ 16
      → Inv (record vm { compile_name = name; awaiting_name = false })
  named-Inv name fits = Comp-Inv (record {
    mode = c.mode;
    dstack = c.dstack;
    mem = c.mem;
    stored = let s = c.stored in (s.0, s.1, s.2, fits, s.4);
    code = c.code;
    dict = c.dict;
    idle = c.idle;
    ctrl_stack = c.ctrl_stack;
    start_le = c.start_le;
    below = c.below;
    words = c.words;
    open_code = c.open_code;
  })

  pub handle_compile_token-Inv : (token : List ℕ) → Inv (handle_compile_token vm token)
  unfolding handle_compile_token
  handle_compile_token-Inv token =
      if-Inv vm.awaiting_name
        (λ _. named-Inv (take word_name_max token) (omega (arith, length-take word_name_max token)))
        λ _.
          if-Inv (str_eq_ci token (codes "IF")) (λ _. compile_if-Inv no_error c)
            λ _.
              if-Inv (str_eq_ci token (codes "ELSE")) (λ _. compile_else-Inv no_error c)
                λ _.
                  if-Inv (str_eq_ci token (codes "THEN")) (λ _. compile_then-Inv no_error c)
                    λ _.
                      if-Inv (str_eq_ci token (codes "BEGIN")) (λ _. compile_begin-Inv no_error c)
                        λ _.
                          if-Inv (str_eq_ci token (codes "UNTIL"))
                            (λ _. compile_until-Inv no_error c)
                            λ _.
                              if-Inv (str_eq_ci token (codes ";")) (λ _. compile_semicolon-Inv)
                                λ _. compile_plain-Inv token
