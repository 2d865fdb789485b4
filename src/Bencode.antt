-- ===== src/Bencode.antt =====
-- internal/bencode: the values of encoder.go and decoder.go, and the two directions.
pub mod Decimal
pub mod Encoder
pub mod Decoder
pub mod RoundTrip
pub mod Spans
use sid_torrent.Prelude.{
  ℕ, List, [], ◌∷◌, ◌++◌, Bool, true, false, Option, none, some, if◌then◌else◌,
}
use sid_torrent.Prelude.Int.{ℤ}
use sid_torrent.Prelude.Bytes.{Bytes, bytes_equal}

-- The values that the decoder makes: []byte, int64, []interface{} and map[string]interface{}.
-- `Fields` lists the entries of a map, each key once.
mutual
  pub data Value : Type 0 where
    bytes : Bytes → Value
    int : ℤ → Value
    list : Items → Value
    dict : Fields → Value

  pub data Items : Type 0 where
    no_items : Items
    item : Value → Items → Items

  pub data Fields : Type 0 where
    no_fields : Fields
    field : Bytes → Value → Fields → Fields

-- `m[key]`
abbrev pub find : Bytes → Fields → Option Value
find k no_fields = none
find k (field j v fs) = if bytes_equal j k then some v else find k fs
