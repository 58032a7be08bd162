-- ===== src/Xtask/Task.antt =====
-- What the functions of xtask/src/main.rs do to the world: they run commands, look at files and may
-- leave the program. The host that answers them is a parameter.
use prime_ble_firmware.Base.{Bool, true, false, List, [], ◌∷◌, ◌++◌, Option, none, some}
use Prim.Native.String.{String}
use prime_ble_firmware.Base.Int.{ℤ, negsuc}
use prime_ble_firmware.Protocol.{Bytes}
use prime_ble_firmware.Xtask.Merge.{Record}

-- Where a command runs: a path from `project_root()`, or the directory of the process.
pub data Dir : Type 0 where
  under_root : String → Dir
  inherited : Dir

-- A `std::process::Command`; the Booleans say whether a stream is `Stdio::null()`.
pub record Cmd : Type 0 where
  pub program : String
  pub current_dir : Dir
  pub args : List String
  pub stdout_null : Bool
  pub stderr_null : Bool

-- The machine that xtask runs on. Paths are those of the source, from `project_root()` if not said
-- otherwise.
pub record Host : Type 1 where
  pub State : Type 0
  -- `cargo()`, and `env::consts::ARCH`
  pub cargo : String
  pub arch : String
  -- `status()`: `none` if it cannot be started, else `success()`
  pub status : Cmd → State → State × Option Bool
  -- `spawn().is_ok()`
  pub spawn : Cmd → State → State × Bool
  -- `output()`: `none` if it cannot be started, else `success()` and the trimmed output
  pub output : Cmd → State → State × Option (Bool × String)
  -- `fs::File::open(_).is_ok()`
  pub opens : State → String → Bool
  -- `fs::metadata(_).is_ok()`, from the directory of the process
  pub metadata : State → String → Bool
  -- `exists()`, and `fs::create_dir(_).is_ok()`
  pub exists : State → String → Bool
  pub create_dir : String → State → State × Bool
  -- the version of the package `firmware`; `none` is a panic
  pub firmware_version : State → Option String
  -- the records and the bytes of a file; `none` is a panic
  pub read_ihex : State → String → Option (List Record)
  pub read_binary : State → String → Option Bytes
  pub write_ihex : String → List Record → State → Option State
  -- a line of the standard input, trimmed and in lower case
  pub read_line : State → State × String

-- How a function ends: it returns, or it leaves the program.
pub data Ending (A : Type 0) : Type 0 where
  returns : A → Ending A
  exits : ℤ → Ending A
  panics : Ending A

-- The machine, and the commands whose `status()` was asked for with what came of it, the oldest
-- first.
pub record World (h : Host) : Type 0 where
  pub host : h.State
  pub log : List (Cmd × Option Bool)

abbrev pub Task : Host → Type 0 → Type 0
Task h A = World h → World h × Ending A

module _ {h : Host} where
  abbrev pub pure : {A : Type 0} → A → Task h A
  pure a w = (w, Ending.returns a)

  abbrev pub exit : {A : Type 0} → ℤ → Task h A
  exit code w = (w, Ending.exits code)

  abbrev pub panic : {A : Type 0} → Task h A
  panic w = (w, Ending.panics)

  abbrev pub continue_with :
      {A B : Type 0} → (A → Task h B) → World h × Ending A → World h × Ending B
  continue_with f (w, Ending.returns a) = f a w
  continue_with f (w, Ending.exits code) = (w, Ending.exits code)
  continue_with f (w, Ending.panics) = (w, Ending.panics)

  infixl 5 ◌>>=◌ ◌>>◌
  unfoldable pub ◌>>=◌ : {A B : Type 0} → Task h A → (A → Task h B) → Task h B
  (m >>= f) w = continue_with f (m w)

  abbrev pub ◌>>◌ : {A B : Type 0} → Task h A → Task h B → Task h B
  m >> n = m >>= (λ _. n)

  -- `unwrap` and `expect`.
  abbrev pub expect : {A : Type 0} → Option A → Task h A
  expect none = panic
  expect (some a) = pure a

  -- A question to the machine.
  abbrev pub asks : {A : Type 0} → (h.State → A) → Task h A
  asks f w = (w, Ending.returns (f w.host))

  -- A call that changes the machine.
  abbrev pub calls : {A : Type 0} → (h.State → h.State × A) → Task h A
  calls f w = let r = f w.host in (record w { host = r.0 }, Ending.returns r.1)

  -- `status()`, which is written down.
  unfoldable pub status : Cmd → Task h (Option Bool)
  status cmd w =
      let r = h.status cmd w.host in
      (record { host = r.0; log = w.log ++ (cmd, r.1) ∷ [] }, Ending.returns r.1)

  unfoldable pub judged : Task h (Unit {0}) → Option Bool → Task h (Unit {0})
  judged failed none = panic
  judged failed (some true) = pure tt
  judged failed (some false) = failed

  -- `let status = cmd.status().expect(_); if !status.success() { exit(-1); }`
  unfoldable pub require : Cmd → Task h (Unit {0})
  unfolding judged
  require cmd = do success ← status cmd; judged (exit (negsuc 0)) success

  -- The same with a panic.
  unfoldable pub require_or_panic : Cmd → Task h (Unit {0})
  unfolding judged
  require_or_panic cmd = do success ← status cmd; judged panic success
