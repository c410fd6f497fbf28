-- ===== src/Database/Replies.antt =====
-- The reply with the outcomes of database calls, and what the client reads from it.
use julea.Common.{
  ℕ, ◌<◌, ◌≡◌, refl, sym, subst, ap, ap₂, Bool, true, false, ◌&&◌, not, Option, none, some, List,
  [], ◌∷◌, ◌++◌, length, map, concat, u32_mod, if◌then◌else◌,
}
use julea.Kv.Requests.{IsText}
use julea.Message.{Message}
use julea.Message.Bytes.{Field, all_encoded, Holds}
use julea.Message.Operations.{all_operations}
use julea.BackendOperation.{
  ParamType, type_str, type_blob, type_bson, type_error, str_null, blob_null, Value, null, bytes,
  an_error,
}
use julea.BackendOperation.Sending.{Sendable, SendableAll, params_fields, params_size}
use julea.BackendOperation.Receiving.{all_ok, is_ok, type_of}
use julea.BackendOperation.Taking.{
  Reply, TakeableAll, reply_types, params_of, all_taken, Takeable, taken_of, from_message-Holds,
}
use julea.Server.Object.{is_some}
use julea.Server.Database.{
  Call, schema_create, schema_get, schema_delete, insert, update, delete, query, out_types, DbError,
  Outcome, document_param, error_param, out_params,
}
use julea.Database.{Operation, wanted, exec_replies}
use julea.Database.Requests.{all_operations-concat}

-- What an output pointer gets.
abbrev pub delivered_error : Bool → Option DbError → Value
delivered_error wanted none = null
delivered_error wanted (some e) =
    if wanted then an_error (some e.domain) e.code (some e.text) else null

abbrev pub delivered_document : Bool → Bool → List ℕ → Value
delivered_document wanted true d = if wanted then bytes d else null
delivered_document wanted false d = null

abbrev pub delivered : Operation → Outcome → List ParamType → List Value
delivered op o [] = []
delivered op o (type_str ∷ ts) = null ∷ delivered op o ts
delivered op o (type_blob ∷ ts) = null ∷ delivered op o ts
delivered op o (type_bson ∷ ts) =
    delivered_document op.wants_document o.ret o.document ∷ delivered op o ts
delivered op o (type_error ∷ ts) = delivered_error op.wants_error o.failure ∷ delivered op o ts

module _ (valid : List ℕ → Bool) where
  -- An operation is reported as done if it set no error, and its document is valid.
  abbrev pub reported : Outcome → List ParamType → Bool
  reported o [] = true
  reported o (type_str ∷ ts) = reported o ts
  reported o (type_blob ∷ ts) = reported o ts
  reported o (type_bson ∷ ts) = (if o.ret then valid o.document else true) && reported o ts
  reported o (type_error ∷ ts) = not (is_some o.failure) && reported o ts

-- The document is not empty where it is sent, and an error's texts hold no zero byte.
abbrev pub ErrorFits : Option DbError → Type 0
ErrorFits none = Unit
ErrorFits (some e) = IsText e.domain × IsText e.text × (e.code < u32_mod)

abbrev pub OutcomeFits : Outcome → Type 0
OutcomeFits o = (0 < length o.document) × ErrorFits o.failure

abbrev replies : Operation → Outcome → List ParamType → List Reply
replies op o [] = []
replies op o (type_str ∷ ts) = (str_null, op.wants_document) ∷ replies op o ts
replies op o (type_blob ∷ ts) = (blob_null 0, op.wants_document) ∷ replies op o ts
replies op o (type_bson ∷ ts) =
    (document_param o.ret o.document, op.wants_document) ∷ replies op o ts
replies op o (type_error ∷ ts) = (error_param o.failure, op.wants_error) ∷ replies op o ts

params_of-replies :
    (op : Operation) (o : Outcome) (ts : List ParamType)
    → params_of (replies op o ts) ≡ out_params o.ret o.document o.failure ts
unfolding out_params
params_of-replies op o [] = refl
params_of-replies op o (type_str ∷ ts) = ap (◌∷◌ str_null) (params_of-replies op o ts)
params_of-replies op o (type_blob ∷ ts) = ap (◌∷◌ (blob_null 0)) (params_of-replies op o ts)
params_of-replies op o (type_bson ∷ ts) =
    ap (◌∷◌ (document_param o.ret o.document)) (params_of-replies op o ts)
params_of-replies op o (type_error ∷ ts) =
    ap (◌∷◌ (error_param o.failure)) (params_of-replies op o ts)

-- The rest, for lists of types without blocks.
abbrev NoBlob : List ParamType → Type 0
NoBlob [] = Unit
NoBlob (type_str ∷ ts) = NoBlob ts
NoBlob (type_blob ∷ ts) = ⊥
NoBlob (type_bson ∷ ts) = NoBlob ts
NoBlob (type_error ∷ ts) = NoBlob ts

out_types-NoBlob : (call : Call) → NoBlob (out_types call)
unfolding out_types
out_types-NoBlob schema_create = tt
out_types-NoBlob schema_get = tt
out_types-NoBlob schema_delete = tt
out_types-NoBlob insert = tt
out_types-NoBlob update = tt
out_types-NoBlob delete = tt
out_types-NoBlob query = tt

Sendable-document :
    (ret : Bool) (d : List ℕ) (w : Bool)
    → 0 < length d
    → Sendable (document_param ret d) × Takeable (document_param ret d) w
Sendable-document true d w some_bytes = (some_bytes, tt)
Sendable-document false d w some_bytes = (tt, tt)

Sendable-error :
    (e : Option DbError) (w : Bool)
    → ErrorFits e
    → Sendable (error_param e) × Takeable (error_param e) w
Sendable-error none w fits = (tt, tt)
Sendable-error (some e) w fits = (fits, tt)

replies-TakeableAll :
    (op : Operation) (o : Outcome) (ts : List ParamType)
    → OutcomeFits o
    → NoBlob ts
    → TakeableAll (replies op o ts)
replies-TakeableAll op o [] fits no_blob = tt
replies-TakeableAll op o (type_str ∷ ts) fits no_blob =
    (tt, tt, replies-TakeableAll op o ts fits no_blob)
replies-TakeableAll op o (type_blob ∷ ts) fits no_blob = absurd no_blob
replies-TakeableAll op o (type_bson ∷ ts) fits no_blob =
    let (sends, takes) = Sendable-document o.ret o.document op.wants_document fits.0 in
    (sends, takes, replies-TakeableAll op o ts fits no_blob)
replies-TakeableAll op o (type_error ∷ ts) fits no_blob =
    let (sends, takes) = Sendable-error o.failure op.wants_error fits.1 in
    (sends, takes, replies-TakeableAll op o ts fits no_blob)

params_of-SendableAll : (rs : List Reply) → TakeableAll rs → SendableAll (params_of rs)
params_of-SendableAll [] ok = tt
params_of-SendableAll (r ∷ rs) ok = (ok.0, params_of-SendableAll rs ok.2)

pub out_params-SendableAll :
    (call : Call) (op : Operation) (o : Outcome)
    → OutcomeFits o
    → SendableAll (out_params o.ret o.document o.failure (out_types call))
out_params-SendableAll call op o fits =
    let ts = out_types call in
    subst SendableAll (params_of-replies op o ts) (
      params_of-SendableAll (replies op o ts)
        (replies-TakeableAll op o ts fits (out_types-NoBlob call)))

document-type :
    (ret : Bool) (d : List ℕ) (w : Bool)
    → ◌≡◌ {A = ParamType × Bool} (type_of (document_param ret d), w) (type_bson, w)
document-type true d w = refl
document-type false d w = refl

error-type :
    (e : Option DbError) (w : Bool)
    → ◌≡◌ {A = ParamType × Bool} (type_of (error_param e), w) (type_error, w)
error-type none w = refl
error-type (some e) w = refl

document-taken :
    (ret : Bool) (d : List ℕ) (w : Bool)
    → taken_of (document_param ret d) w ≡ delivered_document w ret d
document-taken true d w = refl
document-taken false d w = refl

error-taken : (e : Option DbError) (w : Bool) → taken_of (error_param e) w ≡ delivered_error w e
error-taken none w = refl
error-taken (some e) w = refl

reply_types-replies :
    (op : Operation) (o : Outcome) (ts : List ParamType)
    → reply_types (replies op o ts) ≡ wanted op ts
reply_types-replies op o [] = refl
reply_types-replies op o (type_str ∷ ts) =
    ap (◌∷◌ (type_str, op.wants_document)) (reply_types-replies op o ts)
reply_types-replies op o (type_blob ∷ ts) =
    ap (◌∷◌ (type_blob, op.wants_document)) (reply_types-replies op o ts)
reply_types-replies op o (type_bson ∷ ts) =
    ap₂ ◌∷◌ (document-type o.ret o.document op.wants_document) (reply_types-replies op o ts)
reply_types-replies op o (type_error ∷ ts) =
    ap₂ ◌∷◌ (error-type o.failure op.wants_error) (reply_types-replies op o ts)

all_taken-replies :
    (op : Operation) (o : Outcome) (ts : List ParamType)
    → all_taken (replies op o ts) ≡ delivered op o ts
all_taken-replies op o [] = refl
all_taken-replies op o (type_str ∷ ts) = ap (◌∷◌ null) (all_taken-replies op o ts)
all_taken-replies op o (type_blob ∷ ts) = ap (◌∷◌ null) (all_taken-replies op o ts)
all_taken-replies op o (type_bson ∷ ts) =
    ap₂ ◌∷◌ (document-taken o.ret o.document op.wants_document) (all_taken-replies op o ts)
all_taken-replies op o (type_error ∷ ts) =
    ap₂ ◌∷◌ (error-taken o.failure op.wants_error) (all_taken-replies op o ts)

module _ (valid : List ℕ → Bool) where
  document-ok :
      (ret : Bool) (d : List ℕ)
      → is_ok valid (document_param ret d) ≡ (if ret then valid d else true)
  document-ok true d = refl
  document-ok false d = refl

  error-ok : (e : Option DbError) → is_ok valid (error_param e) ≡ not (is_some e)
  error-ok none = refl
  error-ok (some e) = refl

  all_ok-replies :
      (op : Operation) (o : Outcome) (ts : List ParamType)
      → all_ok valid (params_of (replies op o ts)) ≡ reported valid o ts
  all_ok-replies op o [] = refl
  all_ok-replies op o (type_str ∷ ts) = all_ok-replies op o ts
  all_ok-replies op o (type_blob ∷ ts) = all_ok-replies op o ts
  all_ok-replies op o (type_bson ∷ ts) =
      ap₂ ◌&&◌ (document-ok o.ret o.document) (all_ok-replies op o ts)
  all_ok-replies op o (type_error ∷ ts) = ap₂ ◌&&◌ (error-ok o.failure) (all_ok-replies op o ts)

-- Operations with the outcomes of their calls.
abbrev pub Done : Type 0
Done = List (Operation × Outcome)

abbrev pub out_fields : Call → Done → List (List Field)
out_fields call =
    map (λ (op, o). params_fields (out_params o.ret o.document o.failure (out_types call)))

-- What all the output pointers get, and the result.
abbrev pub all_delivered : Call → Done → List (List Value)
all_delivered call [] = []
all_delivered call ((op, o) ∷ done) = delivered op o (out_types call) ∷ all_delivered call done

abbrev pub all_reported : (List ℕ → Bool) → Call → Done → Bool
all_reported valid call [] = true
all_reported valid call ((op, o) ∷ done) =
    reported valid o (out_types call) && all_reported valid call done

-- Each outcome fits, and so does its size.
abbrev pub DoneFits : Call → Done → Type 0
DoneFits call [] = Unit
DoneFits call ((op, o) ∷ done) = OutcomeFits o × DoneFits call done

abbrev pub SizesFit : Call → Done → Type 0
SizesFit call [] = Unit
SizesFit call ((op, o) ∷ done) =
    (params_size (out_params o.ret o.document o.failure (out_types call)) < u32_mod)
    × SizesFit call done

pub exec_replies-Holds :
    (valid : List ℕ → Bool) (call : Call) (reply : Message) (done : Done)
    → DoneFits call done
    → SizesFit call done
    → Holds reply (all_operations (out_fields call done))
    → exec_replies valid call (map (λ d. d.0) done) reply
      ≡ some (all_delivered call done, all_reported valid call done)
unfolding exec_replies
exec_replies-Holds valid call reply [] fits sizes h = refl
exec_replies-Holds valid call reply ((op, o) ∷ done) fits sizes h =
    let ts = out_types call in
    let e = params_of-replies op o ts in
    let h0 = rw (all_operations-concat (out_fields call ((op, o) ∷ done))) at h in
    let h1 =
      subst (λ ps. Holds reply (all_encoded (params_fields ps ++ concat (out_fields call done))))
        (sym e) h0 in
    let (reply', got, h2) =
      from_message-Holds valid reply (replies op o ts) (concat (out_fields call done))
        (replies-TakeableAll op o ts fits.0 (out_types-NoBlob call)) (rw e sizes.0) h1 in
    let got' =
      rw (reply_types-replies op o ts, all_taken-replies op o ts, all_ok-replies valid op o ts) at
        got in
    let h3 = rw (sym (all_operations-concat (out_fields call done))) at h2 in
    rw (got', exec_replies-Holds valid call reply' done fits.1 sizes.1 h3) refl
