-- ===== src/Forth/Safety/Fine.antt =====
-- kernel/forth/forth.c: what a primitive word may change, the data stack, the scratch memory, the output,
-- the error and the kernel behind the hooks.
use rave_os.Prelude.{
  sym, subst, ◌∙◌, get_elem?_exists, get_elem?, ltb, length-append, Every, length-take, ◌++◌, leb,
  ◌-◌, if_cases, if_both, take, ◌<◌, Bool-cases, codes, ℕ, ◌≤◌, ◌≡◌, refl, Bool, true, false, List,
  [], ◌∷◌, if◌then◌else◌, length, length-set, arith, ap,
}
use rave_os.Forth.Words.{push_cell, store_cell}
use rave_os.Forth.Vm.{
  Word, is_empty, Vm, Hook, dstack_size, mem_size, has_error, forth_write, set_error, forth_push,
  pop_then, call_hook,
}

-- A word's name fits its 16 characters.
abbrev pub NameFits : Word → Type 0
NameFits w = length w.name ≤ 16

-- No access has gone outside an array, the output leaves room for its NUL, and the error message and
-- the names fit their buffers.
abbrev pub Stored : Vm → Type 0
Stored vm =
    (vm.fault ≡ false)
    × (length vm.out < vm.out_max)
    × (length vm.error ≤ 31)
    × (length vm.compile_name ≤ 16)
    × Every NameFits vm.dict

pub set_error-Stored : (vm : Vm) (msg : List ℕ) → Stored vm → Stored (set_error vm msg)
unfolding set_error
set_error-Stored vm msg s =
    if_both Stored (has_error vm) s (s.0, s.1, omega (arith, length-take 31 msg), s.3, s.4)

pub forth_write-Stored : (vm : Vm) (text : List ℕ) → Stored vm → Stored (forth_write vm text)
unfolding forth_write
forth_write-Stored vm text s =
    let room = vm.out_max - 1 - length vm.out in
    let fits : length (vm.out ++ take room text) < vm.out_max =
      omega (arith, s.1, length-append vm.out (take room text), length-take room text) in
    (inside (length (vm.out ++ take room text)) fits, fits, s.2, s.3, s.4)
  where
    inside : (n : ℕ) → n < vm.out_max → (if ltb n vm.out_max then vm.fault else true) ≡ false
    inside n lt = let kept = s.0 in ground arith

pub record Fine (before vm : Vm) : Type 0 where
  pub code : vm.code ≡ before.code
  pub dict : vm.dict ≡ before.dict
  pub rstack : vm.rstack ≡ before.rstack
  pub compiling : vm.compiling ≡ before.compiling
  pub compile_start : vm.compile_start ≡ before.compile_start
  pub ctrl_stack : vm.ctrl_stack ≡ before.ctrl_stack
  pub dstack : length vm.dstack ≤ dstack_size
  pub mem : length vm.mem ≡ mem_size
  pub stored : Stored vm

-- The data arrays are within their bounds.
pub record InBounds (vm : Vm) : Type 0 where
  pub dstack : length vm.dstack ≤ dstack_size
  pub mem : length vm.mem ≡ mem_size
  pub stored : Stored vm

pub InBounds-Fine : {vm : Vm} → InBounds vm → Fine vm vm
InBounds-Fine b = record {
  code = refl;
  dict = refl;
  rstack = refl;
  compiling = refl;
  compile_start = refl;
  ctrl_stack = refl;
  dstack = b.dstack;
  mem = b.mem;
  stored = b.stored;
}

-- After `forth_set_error` with a message there is an error.
pub has_error-set_error :
    (vm : Vm) (c : ℕ) (msg : List ℕ) → has_error (set_error vm (c ∷ msg)) ≡ true
unfolding set_error
has_error-set_error vm c msg = ground (arith, Bool-cases (is_empty vm.error))

module _ {before : Vm} where
  pub set_error-Fine : (vm : Vm) (msg : List ℕ) → Fine before vm → Fine before (set_error vm msg)
  unfolding set_error
  set_error-Fine vm msg f = if_both (Fine before) (has_error vm) f (record {
    code = f.code;
    dict = f.dict;
    rstack = f.rstack;
    compiling = f.compiling;
    compile_start = f.compile_start;
    ctrl_stack = f.ctrl_stack;
    dstack = f.dstack;
    mem = f.mem;
    stored = failed;
  })
    where
      failed : Stored (record vm { error = take 31 msg })
      failed = let s = f.stored in (s.0, s.1, omega (arith, length-take 31 msg), s.3, s.4)

  pub forth_push-Fine : (vm : Vm) (v : ℕ) → Fine before vm → Fine before (forth_push vm v)
  unfolding forth_push
  forth_push-Fine vm v f =
      if_cases (Fine before) (leb dstack_size (length vm.dstack))
        (λ full. set_error-Fine vm (codes "STACK FULL") f)
        (λ room. record {
          code = f.code;
          dict = f.dict;
          rstack = f.rstack;
          compiling = f.compiling;
          compile_start = f.compile_start;
          ctrl_stack = f.ctrl_stack;
          dstack = ground arith;
          mem = f.mem;
          stored = f.stored;
        })

  pub forth_write-Fine : (vm : Vm) (s : List ℕ) → Fine before vm → Fine before (forth_write vm s)
  unfolding forth_write
  forth_write-Fine vm s f = record {
    code = f.code;
    dict = f.dict;
    rstack = f.rstack;
    compiling = f.compiling;
    compile_start = f.compile_start;
    ctrl_stack = f.ctrl_stack;
    dstack = f.dstack;
    mem = f.mem;
    stored = forth_write-Stored vm s f.stored;
  }

  pub call_hook-Fine : (vm : Vm) (h : Hook) → Fine before vm → Fine before (call_hook vm h)
  call_hook-Fine vm h f = record {
    code = f.code;
    dict = f.dict;
    rstack = f.rstack;
    compiling = f.compiling;
    compile_start = f.compile_start;
    ctrl_stack = f.ctrl_stack;
    dstack = f.dstack;
    mem = f.mem;
    stored = f.stored;
  }

  pub store-Fine :
      (vm : Vm) (addr v : ℕ) → addr < 64 → Fine before vm → Fine before (store_cell addr v vm)
  store-Fine vm addr v lt f =
      if_cases (Fine before) (ltb addr (length vm.mem))
        (λ inside. record {
          code = f.code;
          dict = f.dict;
          rstack = f.rstack;
          compiling = f.compiling;
          compile_start = f.compile_start;
          ctrl_stack = f.ctrl_stack;
          dstack = f.dstack;
          mem = length-set vm.mem addr v ∙ f.mem;
          stored = f.stored;
        })
        (λ outside. let size = f.mem in absurd (ground arith))

  pub fetch-Fine :
      (vm : Vm) (addr : ℕ)
      → addr < 64
      → Fine before vm
      → Fine before (push_cell (get_elem? vm.mem addr) vm)
  fetch-Fine vm addr lt f =
      let (v, at) = get_elem?_exists vm.mem addr (omega (arith, f.mem)) in
      subst (λ o. Fine before (push_cell o vm)) (sym at) (forth_push-Fine vm v f)

  -- The same with the value of the test in each branch.
  pub test-Fine :
      (b : Bool) (vm vm' : Vm)
      → Fine before vm
      → (b ≡ false → Fine before vm')
      → Fine before (if b then vm else vm')
  test-Fine true vm vm' f g = f
  test-Fine false vm vm' f g = g refl

  pub if-Fine :
      (b : Bool) (vm vm' : Vm)
      → Fine before vm
      → Fine before vm'
      → Fine before (if b then vm else vm')
  if-Fine true vm vm' f g = f
  if-Fine false vm vm' f g = g

  popped :
      (stack : List ℕ) (vm : Vm) (k : ℕ → Vm → Vm)
      → vm.dstack ≡ stack
      → Fine before vm
      → ((v : ℕ) (vm' : Vm) → Fine before vm' → Fine before (k v vm'))
      → Fine before (pop_then vm k)
  unfolding pop_then
  popped [] vm k e f h = rw (e, pop_then) (set_error-Fine vm (codes "STACK EMPTY") f)
  popped (v ∷ rest) vm k e f h = rw (e, pop_then) (h v (record vm { dstack = rest }) fine)
    where
      fine : Fine before (record vm { dstack = rest })
      fine = record {
        code = f.code;
        dict = f.dict;
        rstack = f.rstack;
        compiling = f.compiling;
        compile_start = f.compile_start;
        ctrl_stack = f.ctrl_stack;
        dstack = omega (arith, ap {B = ℕ} length e, f.dstack);
        mem = f.mem;
        stored = f.stored;
      }

  pub pop_then-Fine :
      (vm : Vm) (k : ℕ → Vm → Vm)
      → Fine before vm
      → ((v : ℕ) (vm' : Vm) → Fine before vm' → Fine before (k v vm'))
      → Fine before (pop_then vm k)
  pop_then-Fine vm k f h = popped vm.dstack vm k refl f h
