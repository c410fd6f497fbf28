-- ===== src/Object/Iterator/Servers.antt =====
-- Iterating over the objects of all servers, from the servers' handlers to the client's loop.
use mathlib.Core.List.{append-nil}
use mathlib.Core.Option.{some-injective}
use julea.Common.{
  ℕ, suc, ◌+◌, ◌<◌, ◌≡◌, refl, sym, ap, ◌∙◌, none, List, [], ◌∷◌, ◌++◌, length, map, arith, All,
  u32_mod, some, length-append,
}
use julea.Message.{Message, new_reply, append_string, add_operation, get_string}
use julea.Message.Buffer.{contents}
use julea.Message.Reserve.{total}
use julea.Message.Bytes.{Field, text, all_encoded, Holds, moved, next-Holds, get_string-Holds}
use julea.Message.Stream.Arrival.{Arrived}
use julea.Message.Operations.{
  AllSmall, all_operations, operation, operations, operations-Carries, pieces, append_each,
}
use julea.Message.Iteration.{Iterator, collect, AllAnswered, all_listed, collect-AllAnswered}
use julea.ObjectBackend.{ObjectBackend}
use julea.Server.ObjectIteration.{answer_names, listed_names, handle_list}
use julea.Kv.Get.{new_reply-Carries}
use julea.Kv.Requests.{IsText}
use julea.Object.Iterator.{read_name}

-- What a server's reply holds for these names.
abbrev pub reply_fields : List (List ℕ) → List (List Field)
reply_fields [] = (text [] ∷ []) ∷ []
reply_fields (name ∷ names) = (text name ∷ []) ∷ reply_fields names

abbrev pub NameFits : List ℕ → Type 0
NameFits name = IsText name × (0 < length name)

-- A reply begins with the names of its server.
abbrev Answers : Message → List (List ℕ) → Type 0
Answers r names = Holds r (all_operations (reply_fields names)) × All NameFits names

get_string-name :
    (r : Message) (name rest : List ℕ)
    → IsText name
    → Holds r (all_encoded (text name ∷ []) ++ rest)
    → (r' : Message) × (get_string r ≡ some (r', name)) × Holds r' rest
unfolding all_encoded
get_string-name r name rest is_text h =
    let k = name ++ 0 ∷ [] in
    let (h1, t1) = next-Holds r k rest (rw (append-nil k) at h) in
    (moved r (length k), get_string-Holds r name is_text h1, t1)

read_name-some :
    (r : Message) (name : List ℕ) (names : List (List ℕ))
    → Answers r (name ∷ names)
    → (r' : Message) × (read_name r ≡ some (r', some name)) × Answers r' names
unfolding read_name all_operations
read_name-some r [] names (h, ((_, some_bytes), fits)) = absurd (omega arith)
read_name-some r (c ∷ cs) names (h, ((is_text, some_bytes), fits)) =
    let (r', e, h') = get_string-name r (c ∷ cs) (all_operations (reply_fields names)) is_text h in
    (r', rw e refl, (h', fits))

read_name-none : (r : Message) → Answers r [] → (r' : Message) × (read_name r ≡ some (r', none))
unfolding read_name all_operations
read_name-none r (h, fits) = let (r', e, h') = get_string-name r [] [] tt h in (r', rw e refl)

map-id : (xs : List (List ℕ)) → map (λ x. x) xs ≡ xs
map-id [] = refl
map-id (x ∷ xs) = ap (λ ys. x ∷ ys) (map-id xs)

module _ (magnitude : ℕ → ℕ) where
  answer_names-operations :
      (r : Message) (names : List (List ℕ))
      → answer_names magnitude r names ≡ operations magnitude r (reply_fields names)
  unfolding answer_names operations operation append_string append_each total
  answer_names-operations r [] = refl
  answer_names-operations r (name ∷ names) =
      let e : length name + 1 ≡ total (pieces (text name ∷ [])) =
        omega (arith, length-append name (0 ∷ [])) in
      ap
        (λ (n : ℕ).
          answer_names magnitude
            (append_each (add_operation magnitude r n) (pieces (text name ∷ []))) names)
        e
      ∙ answer_names-operations (operation magnitude r (text name ∷ [])) names

module _ (memory : ℕ → ℕ) (magnitude : ℕ → ℕ) (b : ObjectBackend)
    (scaled : (n : ℕ) → 0 < n → 0 < magnitude n) (namespace : List ℕ) where
  -- The names of a server's objects; there are none if its backend cannot list them.
  abbrev pub names_of : b.State → List (List ℕ)
  names_of s = listed_names (b.get_all s namespace)

  -- A server in the state `s` answered the request `m`, and `r` is the reply as it arrived. Its
  -- names are texts, not empty, and there are less than 4 GiB of them.
  abbrev pub Listed : Message → b.State → Message → Type 0
  Listed m s r =
      Holds m (namespace ++ 0 ∷ [])
      × ((reply : Message) × (handle_list memory magnitude b m s ≡ some reply)
          × Arrived r reply.header (contents reply))
      × All NameFits (names_of s)
      × AllSmall magnitude (new_reply memory m) (reply_fields (names_of s))
      × (length (reply_fields (names_of s)) < u32_mod)

  module _ (is_text : IsText namespace) where
    Listed-Answers :
        (m : Message) (s : b.State) (r : Message) → Listed m s r → Answers r (names_of s)
    unfolding handle_list
    Listed-Answers m s r (h, answer, fits, small, few) =
        let (reply, e, arrived) = answer in
        let names = names_of s in
        let built =
          operations-Carries magnitude scaled m.header.id 0 m.header.op_type (new_reply memory m) 0
            [] (reply_fields names) (new_reply-Carries memory m) small (omega arith) in
        let e' : reply ≡ operations magnitude (new_reply memory m) (reply_fields names) =
          sym (some-injective _ _ (rw (get_string-Holds m namespace is_text h) at e))
          ∙ answer_names-operations magnitude (new_reply memory m) names in
        (rw (e', built.holds) at arrived.3, fits)

    -- The client's loop over an iterator ends, one call after the last object, and has then seen
    -- the names of the objects of all servers in the namespace, server by server, each in its
    -- server's order, once; a server whose backend cannot list them adds none. Each server answered
    -- its request; names are texts and not empty.
    pub collect-handle_list :
        (m : Message) (ms : List Message) (s : b.State) (ss : List b.State) (r : Message)
        (rs : List Message)
        → AllAnswered Listed (m ∷ ms) (s ∷ ss) (r ∷ rs)
        → let names = all_listed names_of (s ∷ ss) in
          (it' : Iterator) × (collect read_name
              (suc (length names))
              (record { current = r; others = rs })
            ≡ some (it', names))
    collect-handle_list m ms s ss r rs a =
        let (it', e) =
          collect-AllAnswered read_name (λ name. name) Answers read_name-some read_name-none Listed
            names_of Listed-Answers m ms s ss r rs a in
        (it', e ∙ ap (λ xs. some (it', xs)) (map-id (all_listed names_of (s ∷ ss))))
