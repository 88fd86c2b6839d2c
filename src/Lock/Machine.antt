-- ===== src/Lock/Machine.antt =====
-- internal/domain/lock/machine_info.go: where a lockfile was generated. A time is a number, and
-- `time.Time.IsZero` is zero.
use preflight.Base.{
  String, Bool, Fallible, fails, if◌then◌else◌, not, returns, str_eq, ℕ, ◌&&◌, ◌==◌, ◌||◌,
}

pub record MachineInfo : Type 0 where
  pub os : String
  pub arch : String
  pub hostname : String
  pub snapshot : ℕ

pub data MachineError : Type 0 where
  unsupported_os unsupported_arch : String → MachineError
  empty_hostname invalid_snapshot : MachineError

unfoldable pub new_machine_info : String → String → String → ℕ → Fallible MachineError MachineInfo
new_machine_info os arch hostname snapshot =
    if not (str_eq os "darwin" || str_eq os "linux")
    then fails (unsupported_os os)
    else if not (str_eq arch "amd64" || str_eq arch "arm64")
    then fails (unsupported_arch arch)
    else if str_eq hostname ""
    then fails empty_hostname
    else if snapshot == 0
    then fails invalid_snapshot
    else returns (record { os = os; arch = arch; hostname = hostname; snapshot = snapshot })

unfoldable pub machine_is_zero : MachineInfo → Bool
machine_is_zero m =
    str_eq m.os "" && (str_eq m.arch "" && (str_eq m.hostname "" && m.snapshot == 0))

unfoldable pub matches : MachineInfo → MachineInfo → Bool
matches m other = str_eq m.os other.os && str_eq m.arch other.arch

unfoldable pub matches_exact : MachineInfo → MachineInfo → Bool
matches_exact m other =
    str_eq m.os other.os && (str_eq m.arch other.arch && str_eq m.hostname other.hostname)
