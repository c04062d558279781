-- ===== src/GlobalTrack/Json.antt =====
-- src/workers/global_track_client.py: _json_safe, which the arguments of a task go through before they
-- are sent as JSON.
use lum_model_face_recogniti.Base.{◌≡◌, ◌&&◌, Bool, true, false, refl, ap₂}

module _ (A S K P X : Type 0) where
  -- The arguments that Python passes: an array or a floating or integer scalar of numpy, a dictionary,
  -- a list or a tuple, what JSON has by itself (`plain`), and any other object.
  mutual
    pub data PyValue : Type 0 where
      ndarray : (a : A) → PyValue
      np_scalar : (s : S) → PyValue
      dict : (fields : PyFields) → PyValue
      list tuple : (items : PyItems) → PyValue
      plain : (p : P) → PyValue
      other : (x : X) → PyValue

    pub data PyItems : Type 0 where
      nil : PyItems
      cons : (v : PyValue) (vs : PyItems) → PyItems

    pub data PyFields : Type 0 where
      end : PyFields
      field : (k : K) (v : PyValue) (fs : PyFields) → PyFields

  -- What numpy's `tolist` and `item` return.
  pub record Numpy : Type 0 where
    pub tolist : A → PyValue
    pub item : S → PyValue

module _ {A S K P X : Type 0} (N : Numpy A S K P X) where
  unfoldable mutual
    pub json_safe : PyValue A S K P X → PyValue A S K P X
    json_safe (ndarray a) = N.tolist a
    json_safe (np_scalar s) = N.item s
    json_safe (dict fs) = dict (json_safe_fields fs)
    json_safe (list vs) = list (json_safe_items vs)
    json_safe (tuple vs) = list (json_safe_items vs)
    json_safe (plain p) = plain p
    json_safe (other x) = other x

    pub json_safe_items : PyItems A S K P X → PyItems A S K P X
    json_safe_items nil = nil
    json_safe_items (cons v vs) = cons (json_safe v) (json_safe_items vs)

    pub json_safe_fields : PyFields A S K P X → PyFields A S K P X
    json_safe_fields end = end
    json_safe_fields (field k v fs) = field k (json_safe v) (json_safe_fields fs)

-- `key_ok` says which keys of a dictionary the JSON encoder takes: those of Python's own types are taken,
-- those of numpy are not.
module _ {A S K P X : Type 0} (key_ok : K → Bool) where
  -- Built of lists, plain values and dictionaries whose keys the encoder takes, and of nothing else.
  unfoldable mutual
    pub is_plain : PyValue A S K P X → Bool
    is_plain (dict fs) = are_plain_fields fs
    is_plain (list vs) = are_plain vs
    is_plain (plain p) = true
    is_plain _ = false

    pub are_plain : PyItems A S K P X → Bool
    are_plain nil = true
    are_plain (cons v vs) = is_plain v && are_plain vs

    pub are_plain_fields : PyFields A S K P X → Bool
    are_plain_fields end = true
    are_plain_fields (field k v fs) = (key_ok k && is_plain v) && are_plain_fields fs

module _ {A S K P X : Type 0} (N : Numpy A S K P X) (key_ok : K → Bool) where
  -- No object of another kind stands anywhere inside, nor a key that the encoder does not take, nor an
  -- array or a scalar that numpy itself turns into something that is not plain.
  unfoldable mutual
    unfolding is_plain

    pub is_known : PyValue A S K P X → Bool
    is_known (ndarray a) = is_plain key_ok (N.tolist a)
    is_known (np_scalar s) = is_plain key_ok (N.item s)
    is_known (dict fs) = are_known_fields fs
    is_known (list vs) = are_known vs
    is_known (tuple vs) = are_known vs
    is_known (plain p) = true
    is_known (other x) = false

    pub are_known : PyItems A S K P X → Bool
    are_known nil = true
    are_known (cons v vs) = is_known v && are_known vs

    pub are_known_fields : PyFields A S K P X → Bool
    are_known_fields end = true
    are_known_fields (field k v fs) = (key_ok k && is_known v) && are_known_fields fs

  mutual
    unfolding json_safe is_plain is_known

    is_plain-json_safe : (v : PyValue A S K P X) → is_plain key_ok (json_safe N v) ≡ is_known v
    is_plain-json_safe (ndarray a) = refl
    is_plain-json_safe (np_scalar s) = refl
    is_plain-json_safe (dict fs) = are_plain-fields fs
    is_plain-json_safe (list vs) = are_plain-items vs
    is_plain-json_safe (tuple vs) = are_plain-items vs
    is_plain-json_safe (plain p) = refl
    is_plain-json_safe (other x) = refl

    are_plain-items :
        (vs : PyItems A S K P X) → are_plain key_ok (json_safe_items N vs) ≡ are_known vs
    are_plain-items nil = refl
    are_plain-items (cons v vs) = ap₂ (λ a b. a && b) (is_plain-json_safe v) (are_plain-items vs)

    are_plain-fields :
        (fs : PyFields A S K P X)
        → are_plain_fields key_ok (json_safe_fields N fs) ≡ are_known_fields fs
    are_plain-fields end = refl
    are_plain-fields (field k v fs) =
        ap₂ (λ a b. (key_ok k && a) && b) (is_plain-json_safe v) (are_plain-fields fs)

  -- What an argument becomes is plain for the encoder exactly where nothing in it is of another kind,
  -- at any depth, every key of its dictionaries is one that the encoder takes, and what numpy makes
  -- of each of its arrays and scalars is plain.
  pub json_safe-is_plain : (v : PyValue A S K P X) → is_plain key_ok (json_safe N v) ≡ is_known v
  json_safe-is_plain v = is_plain-json_safe v
