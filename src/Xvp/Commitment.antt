-- ===== src/Xvp/Commitment.antt =====
-- workflows/xvp-commitment.ts: the hash-lock commitments of an XvP. The random keys are arguments.
use mock_pontes.Base.{String, ◌++◌, ◌==◌, Option, none, some, if◌then◌else◌}
use mock_pontes.Result.{Result, ok, err, thrown}
use mock_pontes.Xvp.Types.{Services}

pub data HashMethod : Type 0 where
  hex_string bytes : HashMethod

unfoldable resolve_xvp_hash_method : Option String → Result HashMethod
resolve_xvp_hash_method none = ok hex_string
resolve_xvp_hash_method (some raw) =
    if raw == ""
    then ok hex_string
    else if raw == "hex-string"
    then ok hex_string
    else if raw == "bytes"
    then ok bytes
    else err (
        thrown (
          "Invalid XVP_HASH_METHOD '" ++ raw
          ++ "': must be 'hex-string' or 'bytes' (unset defaults to 'hex-string')."))

pub record CommitmentPair : Type 0 where
  pub execution_key : String
  pub execution_hash : String
  pub cancellation_key : String
  pub cancellation_hash : String

module _ ⦃sv : Services⦄ where
  unfoldable pub xvp_commitment_hash : String → HashMethod → String
  xvp_commitment_hash key hex_string = sv.hash_text key
  xvp_commitment_hash key bytes = sv.hash_hex key

  unfoldable pub generate_xvp_commitments : HashMethod → String → String → CommitmentPair
  generate_xvp_commitments method execution cancellation = record {
    execution_key = execution;
    execution_hash = xvp_commitment_hash execution method;
    cancellation_key = cancellation;
    cancellation_hash = xvp_commitment_hash cancellation method;
  }
