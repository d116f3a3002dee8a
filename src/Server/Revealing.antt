-- ===== src/Server/Revealing.antt =====
-- crates/snip36-server/src/routes/coinflip.rs: what a reveal that succeeds has shown.
use snip36_prover_web.Common.{
  ℕ, ◌≤◌, String, Option, none, some, false, not, min, ◌==◌, string_eq, eq_iff, Result, ok, map_err,
  ◌≡◌, ◌≢◌, refl, sym, subst, ◌∙◌, ◌⊎◌, inl, inr, arith, >>=-eq-ok, reject_if-eq-ok, Bool-cases,
  nat_beq, nat_beq_iff,
}
use snip36_prover_web.Common.Text.{◌+++◌, decimal}
use snip36_prover_web.Common.Assoc.{lookup}
use snip36_prover_web.Proofs.Types.{Felt}
use snip36_prover_web.Signing.Crates.{Crates}
use snip36_prover_web.Signing.Payload.{felt_from_hex}
use snip36_prover_web.Server.State.{AppState, CoinFlipDeployment, BetCommitment}
use snip36_prover_web.Server.Coinflip.{
  ErrorResponse, error_response, Reveal, PlayQuery, verify_reveal, play_from, play_coinflip,
}

module _ (c : Crates) (pedersen_hash : Felt → Felt → Felt) where
  -- The reveal opens the commitment: it is of its player and its seed, and the commitment is the
  -- hash of its bet with some nonce.
  abbrev pub Opens : BetCommitment → Reveal → Type 0
  Opens b r =
      (r.player ≡ b.player)
      × (r.seed_block ≡ b.seed_block)
      × (r.bet ≤ 1)
      × ((nonce : Felt) × (c.felt_hex (pedersen_hash (c.felt_from r.bet) nonce) ≡ b.commitment))

  same_text : (s t : String) → not (s == t) ≡ false → s ≡ t
  same_text s t h = (eq_iff s t).0 (ground arith)

  ok-reveal : {r s : Reveal} → ◌≡◌ {A = Result ErrorResponse Reveal} (ok r) (ok s) → r ≡ s
  ok-reveal h = cc

  verify_reveal-Opens :
      (d : CoinFlipDeployment) (session_id : String) (params : PlayQuery) (b : BetCommitment)
      (r : Reveal)
      → verify_reveal c pedersen_hash d session_id params b ≡ ok r
      → Opens b r
  unfolding verify_reveal
  verify_reveal-Opens d session_id params b r h =
      let (player, h1) =
        reject_if-eq-ok (not (params.player == b.player))
          (error_response 400 "Player address does not match commitment.") _ h in
      let (nonce, e2, h2) =
        >>=-eq-ok
          (map_err (λ e. error_response 400 ("Invalid nonce: " +++ e))
            (felt_from_hex c params.nonce))
          _ h1 in
      let bet = min params.bet 1 in
      let computed_hex = c.felt_hex (pedersen_hash (c.felt_from bet) nonce) in
      let (commitment, h3) =
        reject_if-eq-ok (not (computed_hex == b.commitment))
          (error_response 400 (
            "Commitment mismatch: pedersen("
            +++ decimal bet
            +++ ", nonce) = "
            +++ computed_hex
            +++ ", expected "
            +++ b.commitment))
          _ h2 in
      subst (Opens b) (ok-reveal h3) (
        same_text params.player b.player player,
        refl,
        omega arith,
        (nonce, same_text computed_hex b.commitment commitment),
      )

  -- A reveal that succeeds had a commitment pending in its session: of the same player and with
  -- the same seed block, and it is the Pedersen hash of the revealed bet, which is 0 or 1, with
  -- some nonce.
  pub play_coinflip-Opens :
      (session_id : String) (params : PlayQuery) (state : AppState) (r : Reveal)
      → (play_coinflip c pedersen_hash session_id params state).1 ≡ ok r
      → (b : BetCommitment) × (lookup session_id state.commitments ≡ some b) × Opens b r
  unfolding play_coinflip
  play_coinflip-Opens session_id params state r h =
      opened state.coinflip (lookup session_id state.commitments) refl h
    where
      opened :
          (o : Option CoinFlipDeployment) (m : Option BetCommitment)
          → lookup session_id state.commitments ≡ m
          → (play_from c pedersen_hash session_id params state o m).1 ≡ ok r
          → (b : BetCommitment) × (lookup session_id state.commitments ≡ some b) × Opens b r
      opened none m e h = cc
      opened (some d) none e h = cc
      opened (some d) (some b) e h = (b, e, verify_reveal-Opens d session_id params b r h)

-- Two different inputs of the Pedersen hash with one output.
abbrev pub PedersenCollision : (Felt → Felt → Felt) → Type 0
PedersenCollision h = (a : Felt) × (m : Felt) × (b : Felt) × (n : Felt) × (a ≢ b) × (h a m ≡ h b n)

module _ (c : Crates) (pedersen_hash : Felt → Felt → Felt) where
  Opens-binding :
      ((a b : Felt) → c.felt_hex a ≡ c.felt_hex b → a ≡ b)
      → ((m n : ℕ) → m ≤ 1 → n ≤ 1 → c.felt_from m ≡ c.felt_from n → m ≡ n)
      → (b : BetCommitment) (r s : Reveal) → Opens c pedersen_hash b r
      → Opens c pedersen_hash b s
      → (r.bet ≡ s.bet) ⊎ PedersenCollision pedersen_hash
  Opens-binding hex_injective bit_injective b r s (p, sb, lr, (m, hr)) (q, tb, ls, (n, hs)) =
      let same = hex_injective _ _ (hr ∙ sym hs) in
      elim (Bool-cases (nat_beq r.bet s.bet)) [
        | inl equal ↦ inl ((nat_beq_iff r.bet s.bet).0 equal)
        | inr apart ↦ inr (
          c.felt_from r.bet,
          m,
          c.felt_from s.bet,
          n,
          (λ e. ground (arith, bit_injective r.bet s.bet lr ls e)),
          same,
        )
      ]

  some_same : {x y : BetCommitment} → ◌≡◌ {A = Option BetCommitment} (some x) (some y) → x ≡ y
  some_same h = cc

  -- With a hexadecimal form that is injective and bits that are distinct as felts, two reveals of
  -- one commitment that both succeed, in whatever states and sessions, are of the same bet, or
  -- they give two different inputs of the Pedersen hash with one output.
  pub reveal-binding :
      ((a b : Felt) → c.felt_hex a ≡ c.felt_hex b → a ≡ b)
      → ((m n : ℕ) → m ≤ 1 → n ≤ 1 → c.felt_from m ≡ c.felt_from n → m ≡ n)
      → (session other : String) (p q : PlayQuery) (state later : AppState) (b : BetCommitment)
      → lookup session state.commitments ≡ some b
      → lookup other later.commitments ≡ some b
      → (r s : Reveal) → (play_coinflip c pedersen_hash session p state).1 ≡ ok r
      → (play_coinflip c pedersen_hash other q later).1 ≡ ok s
      → (r.bet ≡ s.bet) ⊎ PedersenCollision pedersen_hash
  reveal-binding hex_injective bit_injective session other p q state later b here there r s first
        second =
      let (x, ex, opens) = play_coinflip-Opens c pedersen_hash session p state r first in
      let (y, ey, reopens) = play_coinflip-Opens c pedersen_hash other q later s second in
      Opens-binding hex_injective bit_injective b r s
        (subst (λ t. Opens c pedersen_hash t r) (some_same (sym ex ∙ here)) opens)
        (subst (λ t. Opens c pedersen_hash t s) (some_same (sym ey ∙ there)) reopens)
