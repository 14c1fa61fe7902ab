-- ===== src/Ssh.antt =====
-- What the program takes from golang.org/x/crypto/ssh: keys, signers and fingerprints.
use skeys.Prelude.{Option}
use skeys.Text.{Text}

pub record Crypto : Type 1 where
  pub PrivateKey : Type 0
  pub PublicKey : Type 0
  pub Signer : Type 0
  pub Signature : Type 0
  -- `ssh.NewSignerFromKey`
  pub new_signer : PrivateKey → Option Signer
  -- `Signer.PublicKey`
  pub public_key : Signer → PublicKey
  -- `ssh.FingerprintSHA256`
  pub fingerprint : PublicKey → Text
  -- `PublicKey.Type` and `PublicKey.Marshal`
  pub key_type : PublicKey → Text
  pub marshal : PublicKey → Text
  -- `Signer.Sign`, and `SignWithAlgorithm` of a signer that is an `ssh.AlgorithmSigner`
  pub sign : Signer → Text → Option Signature
  pub algorithm_signer : Signer → Option (Text → Text → Option Signature)
