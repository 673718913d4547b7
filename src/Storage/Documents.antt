-- ===== src/Storage/Documents.antt =====
-- The documents that internal/storage/mongo.go builds and takes apart, and its `toInt64`. `Double`
-- stands for float64, `truncate` for Go's conversion of one to int64.
use distributed_logs_aggrega.Base.{
  String, ◌≡◌, refl, Bool, Option, none, some, ◌==◌, eq_iff, arith, if◌then◌else◌,
}
use distributed_logs_aggrega.Base.Int.{ℤ, pos}
use distributed_logs_aggrega.Models.{Time}

module _ (Double : Type 0) where
  -- The value of an `interface{}`, of those that a `bson.M` of the program holds: an array is a
  -- `bson.A`, a document a `bson.M`, a date a `time.Time`; a `date_time` is the driver's own type for
  -- dates, to which it decodes a date for an `interface{}` (in milliseconds since 1970).
  mutual
    pub data Bson : Type 0 where
      null : Bson
      boolean : Bool → Bson
      int32 : ℤ → Bson
      int64 : ℤ → Bson
      double : Double → Bson
      text : String → Bson
      date : Time → Bson
      date_time : ℤ → Bson
      array : Items → Bson
      document : Fields → Bson

    pub data Items : Type 0 where
      nil : Items
      cons : Bson → Items → Items

    pub data Fields : Type 0 where
      end : Fields
      field : String → Bson → Fields → Fields

  -- A missing key has the value nil.
  unfoldable pub get : String → Fields → Bson
  get key end = null
  get key (field name value rest) = if name == key then value else get key rest

  unfoldable pub put : String → Bson → Fields → Fields
  put key new end = field key new end
  put key new (field name value rest) =
      if name == key then field key new rest else field name value (put key new rest)

  pub get-put :
      (key other : String) (new : Bson) (doc : Fields)
      → get other (put key new doc) ≡ (if key == other then new else get other doc)
  unfolding get put
  get-put key other new end = refl
  get-put key other new (field name value rest) =
      ground
        (get-put key other new rest, eq_iff name key, eq_iff name other, eq_iff key other, arith)

  -- The type assertions `v.(bson.A)`, `v.(bson.M)` and `v.(string)`.
  abbrev pub as_array : Bson → Option Items
  as_array (array xs) = some xs
  as_array _ = none

  abbrev pub as_document : Bson → Option Fields
  as_document (document m) = some m
  as_document _ = none

  -- With `lvl, _ :=` a value of another type leaves the empty string.
  abbrev pub text_or_empty : Bson → String
  text_or_empty (text s) = s
  text_or_empty _ = ""

  unfoldable pub to_int64 : (Double → ℤ) → Bson → ℤ
  to_int64 truncate (int32 n) = n
  to_int64 truncate (int64 n) = n
  to_int64 truncate (double x) = truncate x
  to_int64 truncate _ = pos 0
