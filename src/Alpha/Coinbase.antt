-- ===== src/Alpha/Coinbase.antt =====
-- src/alpha/coinbase.rs: the first allocations, which spend nothing.
use zfx_subzero.Prelude.{ℕ, ◌+◌, ◌≡◌, refl, ◌∙◌, List, [], ◌∷◌, arith}
use zfx_subzero.Cell.Types.{
  Capacity, PublicKeyHash, Output, Cell, Crypto, CellType, total, total-new_outputs, new_inputs,
  new_outputs,
}

unfoldable pub coinbase_output : Crypto → PublicKeyHash → Capacity → Output
coinbase_output crypto recipient_address capacity = record {
  capacity = capacity;
  cell_type = CellType.coinbase;
  state = crypto.encode_coinbase;
  lock = recipient_address;
}

coinbase_outputs : Crypto → List (PublicKeyHash × Capacity) → List Output
unfolding coinbase_output
coinbase_outputs crypto [] = []
coinbase_outputs crypto ((pkh, capacity) ∷ recipients) =
    coinbase_output crypto pkh capacity ∷ coinbase_outputs crypto recipients

-- `TryInto<Cell> for CoinbaseOperation`
unfoldable pub coinbase_cell : Crypto → List (PublicKeyHash × Capacity) → Cell
unfolding coinbase_outputs new_inputs new_outputs
coinbase_cell crypto recipients = record {
  inputs = new_inputs [];
  outputs = new_outputs (coinbase_outputs crypto recipients);
}

pub allocated : List (PublicKeyHash × Capacity) → ℕ
allocated [] = 0
allocated ((pkh, capacity) ∷ recipients) = capacity + allocated recipients

total-coinbase_outputs :
    (crypto : Crypto) (recipients : List (PublicKeyHash × Capacity))
    → total (coinbase_outputs crypto recipients) ≡ allocated recipients
unfolding coinbase_outputs total allocated
total-coinbase_outputs crypto [] = refl
total-coinbase_outputs crypto (r ∷ recipients) =
    omega (arith, total-coinbase_outputs crypto recipients)

-- A coinbase cell spends nothing and holds what is allocated to its recipients.
pub total-coinbase_cell :
    (crypto : Crypto) (recipients : List (PublicKeyHash × Capacity))
    → ((coinbase_cell crypto recipients).inputs ≡ [])
      × (total (coinbase_cell crypto recipients).outputs ≡ allocated recipients)
unfolding coinbase_cell
total-coinbase_cell crypto recipients = (
  refl,
  total-new_outputs (coinbase_outputs crypto recipients) ∙ total-coinbase_outputs crypto recipients,
)
