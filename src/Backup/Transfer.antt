-- ===== src/Backup/Transfer.antt =====
-- src/backup/transfer/TransferResult.hpp and .cpp: how a transfer ended.
use btrfs_backup.Common.{
  Bool, true, false, not, ◌&&◌, ℕ, suc, eqb, if◌then◌else◌, [], ◌++◌, is_empty, Text, text, Option,
  none, some, ◌≡◌, ap, ◌↔◌, decimal_text, arith,
}
use btrfs_backup.Core.ErrorCode.{
  ErrorCode, runner_cancelled, transfer_producer_consumer_failed, transfer_producer_failed,
  transfer_consumer_failed, transfer_failed,
}
use btrfs_backup.Core.Errors.{Result, ok, err, validation_error}

-- An `int`: `negsuc n` is -1 - n.
pub data ℤ : Type 0 where
  pos : ℕ → ℤ
  negsuc : ℕ → ℤ

pub data TransferSideResult : Type 0 where
  not_started : Text → TransferSideResult
  running : Text → TransferSideResult
  exited : ℤ → Text → TransferSideResult

unfoldable pub started : TransferSideResult → Bool
started (not_started diagnostics) = false
started (running diagnostics) = true
started (exited code diagnostics) = true

unfoldable pub exit_code : TransferSideResult → Option ℤ
exit_code (exited code diagnostics) = some code
exit_code _ = none

unfoldable pub diagnostics_of : TransferSideResult → Text
diagnostics_of (not_started diagnostics) = diagnostics
diagnostics_of (running diagnostics) = diagnostics
diagnostics_of (exited code diagnostics) = diagnostics

unfoldable pub mark_exited : TransferSideResult → ℤ → TransferSideResult
unfolding diagnostics_of
mark_exited side code = exited code (diagnostics_of side)

pub record TransferResult : Type 0 where
  pub producer : TransferSideResult
  pub consumer : TransferSideResult
  pub bytes_transferred : ℕ
  pub bytes_produced : ℕ
  pub bytes_total_estimated : ℕ
  pub duration_ms : ℕ
  pub average_speed_bps : ℕ
  pub cancelled : Bool

-- `exit_code() == 0`.
unfoldable pub exited_well : TransferSideResult → Bool
exited_well (exited (pos code) diagnostics) = eqb code 0
exited_well _ = false

-- `std::to_string`.
unfoldable pub int_text : ℤ → Text
int_text (pos n) = decimal_text n
int_text (negsuc n) = text "-" ++ decimal_text (suc n)

-- `exit_code().value_or(-1)`.
unfoldable pub exit_code_or : Option ℤ → ℤ
exit_code_or (some code) = code
exit_code_or none = negsuc 0

unfoldable pub side_failure : Text → TransferSideResult → Text
unfolding started exit_code exit_code_or int_text diagnostics_of
side_failure side result =
    (side
      ++ text " failed"
      ++ (if not (started result)
          then text " before start"
          else text " with exit code " ++ int_text (exit_code_or (exit_code result))))
    ++ (if is_empty (diagnostics_of result) then [] else text ": " ++ diagnostics_of result)

unfoldable pub transfer_succeeded : TransferResult → Bool
unfolding exited_well
transfer_succeeded result =
    not result.cancelled && exited_well result.producer && exited_well result.consumer

unfoldable pub transfer_failure_error_code : TransferResult → Option ErrorCode
unfolding transfer_succeeded exited_well
transfer_failure_error_code result =
    let producer_failed = not (exited_well result.producer) in
    let consumer_failed = not (exited_well result.consumer) in
    if transfer_succeeded result
    then none
    else if result.cancelled
    then some runner_cancelled
    else if producer_failed && consumer_failed
    then some transfer_producer_consumer_failed
    else if producer_failed
    then some transfer_producer_failed
    else if consumer_failed
    then some transfer_consumer_failed
    else some transfer_failed

unfoldable pub require_transfer_success : TransferResult → Result (Unit {0})
unfolding transfer_succeeded exited_well side_failure
require_transfer_success result =
    let producer_failed = not (exited_well result.producer) in
    let consumer_failed = not (exited_well result.consumer) in
    if transfer_succeeded result
    then ok tt
    else if result.cancelled
    then err (validation_error (text "Transfer was cancelled"))
    else if producer_failed && consumer_failed
    then err (
        validation_error (
          text "Transfer failed: "
          ++ side_failure (text "producer") result.producer
          ++ text "; "
          ++ side_failure (text "consumer") result.consumer))
    else if producer_failed
    then err (validation_error (side_failure (text "producer") result.producer))
    else if consumer_failed
    then err (validation_error (side_failure (text "consumer") result.consumer))
    else err (validation_error (text "Transfer failed"))

exited_well_iff :
    (side : TransferSideResult) → (exited_well side ≡ true) ↔ (exit_code side ≡ some (pos 0))
unfolding exited_well exit_code
exited_well_iff (not_started d) = ((λ h. cc), (λ h. cc))
exited_well_iff (running d) = ((λ h. cc), (λ h. cc))
exited_well_iff (exited (pos n) d) =
    ((λ h. let e : n ≡ 0 = ground (arith, h) in ap (λ k. some (pos k)) e), (λ h. ground (arith, h)))
exited_well_iff (exited (negsuc n) d) = ((λ h. cc), (λ h. cc))

-- A transfer has no failure code exactly if it was not cancelled and both of its sides exited with
-- code 0.
pub transfer_failure_error_code_iff :
    (result : TransferResult)
    → (transfer_failure_error_code result ≡ none) ↔ (
        (result.cancelled ≡ false)
        × (exit_code result.producer ≡ some (pos 0))
        × (exit_code result.consumer ≡ some (pos 0)))
unfolding transfer_failure_error_code transfer_succeeded
transfer_failure_error_code_iff result =
    ground (arith, exited_well_iff result.producer, exited_well_iff result.consumer)
