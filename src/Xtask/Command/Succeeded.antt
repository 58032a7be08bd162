-- ===== src/Xtask/Command/Succeeded.antt =====
-- xtask/src/main.rs does not go on after a command that failed.
pub mod Main
use prime_ble_firmware.Base.{
  ◌≡◌, refl, Bool, true, false, List, [], ◌∷◌, ◌++◌, Option, none, some, all, arith, if◌then◌else◌,
  ◌&&◌,
}
use Prim.Native.String.{String}
use prime_ble_firmware.Base.Int.{ℤ, negsuc}
use prime_ble_firmware.Xtask.Merge.{Record, MergeableFile, merge_files}
use prime_ble_firmware.Xtask.Task.{
  Cmd, Host, World, Ending, Task, ◌>>=◌, pure, exit, panic, expect, asks, calls, continue_with,
  status, judged, require, require_or_panic,
}
use prime_ble_firmware.Xtask.Build.{
  Input, created, make_dir, tools_check, build_bootloader, read_input, read_inputs, write_output,
  merge_to, build_tools_check, build_tools_check_debug, build_bt_bootloader,
  build_bt_bootloader_debug, build_bt_firmware, build_bt_debug_firmware, build_bt_package,
  build_bt_minimal_package, build_bt_package_debug, patch_sd,
}
use prime_ble_firmware.Xtask.Command.{
  Commands, unless, found_rustc, confirm, sign_bt_firmware, check_toolchain_path, main,
}

abbrev did_succeed : Option Bool → Bool
did_succeed none = false
did_succeed (some ok) = ok

-- Whether every command of a log was started and succeeded.
abbrev pub succeeded : List (Cmd × Option Bool) → Bool
succeeded log = all (λ entry. did_succeed entry.1) log

succeeded-append :
    (log : List (Cmd × Option Bool)) (cmd : Cmd)
    → succeeded log ≡ true
    → succeeded (log ++ (cmd, some true) ∷ []) ≡ true
succeeded-append [] cmd e = refl
succeeded-append (entry ∷ log) cmd e = ground (arith, succeeded-append log cmd)

module _ {h : Host} where
  -- A task that returns only if all that it ran succeeded.
  pub record IsStrict {A : Type 0} (m : Task h A) : Type 0 where
    pub strict :
        (w : World h) (a : A)
        → succeeded w.log ≡ true
        → (m w).1 ≡ Ending.returns a
        → succeeded (m w).0.log ≡ true

  continue_with-strict :
      {A B : Type 0} (f : A → Task h B)
      → ((a : A) → IsStrict (f a))
      → (r : World h × Ending A) → ((a : A) → r.1 ≡ Ending.returns a → succeeded r.0.log ≡ true)
      → (b : B) → (continue_with f r).1 ≡ Ending.returns b
      → succeeded (continue_with f r).0.log ≡ true
  continue_with-strict f hf (w, Ending.returns a) hr b e = (hf a).strict w b (hr a refl) e
  continue_with-strict f hf (w, Ending.exits code) hr b e = absurd (cc)
  continue_with-strict f hf (w, Ending.panics) hr b e = absurd (cc)

  pub bind-IsStrict :
      {A B : Type 0} {m : Task h A} {f : A → Task h B}
      → IsStrict m
      → ((a : A) → IsStrict (f a))
      → IsStrict (m >>= f)
  unfolding ◌>>=◌
  bind-IsStrict {m} {f} hm hf = record {
    strict = λ w b ok e. continue_with-strict f hf (m w) (λ a e'. hm.strict w a ok e') b e;
  }

  pub pure-IsStrict : {A : Type 0} (a : A) → IsStrict (pure a)
  pure-IsStrict a = record { strict = λ w b ok e. ok }

  pub exit-IsStrict : {A : Type 0} (code : ℤ) → IsStrict (exit {A = A} code)
  exit-IsStrict code = record { strict = λ w b ok e. absurd (cc) }

  pub panic-IsStrict : {A : Type 0} → IsStrict (panic {A = A})
  panic-IsStrict = record { strict = λ w b ok e. absurd (cc) }

  pub expect-IsStrict : {A : Type 0} (o : Option A) → IsStrict (expect o)
  expect-IsStrict none = panic-IsStrict
  expect-IsStrict (some a) = pure-IsStrict a

  pub asks-IsStrict : {A : Type 0} (f : h.State → A) → IsStrict (asks f)
  asks-IsStrict f = record { strict = λ w b ok e. ok }

  pub calls-IsStrict : {A : Type 0} (f : h.State → h.State × A) → IsStrict (calls f)
  calls-IsStrict f = record { strict = λ w b ok e. ok }

  judged-strict :
      (failed : Task h (Unit {0})) (cmd : Cmd) (s : h.State) (log : List (Cmd × Option Bool))
      (success : Option Bool) (b : Unit {0})
      → ((w : World h) (c : Unit {0}) → (failed w).1 ≡ Ending.returns c → ⊥)
      → succeeded log ≡ true
      → let w : World h = record { host = s; log = log ++ (cmd, success) ∷ [] } in
        (judged failed success w).1 ≡ Ending.returns b
        → succeeded (judged failed success w).0.log ≡ true
  unfolding judged
  judged-strict failed cmd s log none b never ok e = absurd (cc)
  judged-strict failed cmd s log (some true) b never ok e = succeeded-append log cmd ok
  judged-strict failed cmd s log (some false) b never ok e = absurd (never _ b e)

  pub require-IsStrict : (cmd : Cmd) → IsStrict (require cmd)
  unfolding require status judged ◌>>=◌
  require-IsStrict cmd = record {
    strict = λ w b ok e.
        let r : h.State × Option Bool = h.status cmd w.host in
        judged-strict (exit (negsuc 0)) cmd r.0 w.log r.1 b (λ w' c e'. absurd (cc)) ok e;
  }

  pub require_or_panic-IsStrict : (cmd : Cmd) → IsStrict (require_or_panic cmd)
  unfolding require_or_panic status judged ◌>>=◌
  require_or_panic-IsStrict cmd = record {
    strict = λ w b ok e.
        let r : h.State × Option Bool = h.status cmd w.host in
        judged-strict panic cmd r.0 w.log r.1 b (λ w' c e'. absurd (cc)) ok e;
  }

  pub if-IsStrict :
      {A : Type 0} (c : Bool) {m n : Task h A}
      → IsStrict m
      → IsStrict n
      → IsStrict (if c then m else n)
  if-IsStrict true hm hn = hm
  if-IsStrict false hm hn = hn
