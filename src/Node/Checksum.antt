-- ===== src/Node/Checksum.antt =====
-- The check that all nodes of the chain hold the same volume: `HeadService::ChecksumSystem` and
-- `NodeListener::ChecksumChain` (src/interfaceImpl/serverService).
use chained_block_storage.Base.{
  ℕ, ◌≡◌, refl, ◌↔◌, Bool, true, false, ◌&&◌, List, [], ◌∷◌, arith, if◌then◌else◌,
}
use chained_block_storage.Protocol.{State, head_state}
use chained_block_storage.Tables.Identifier.{Text-discrete}
use chained_block_storage.Node.{is_end}

pub record ChecksumReply : Type 0 where
  pub chk_sum : List ℕ
  pub valid : Bool

is_same : {s t : List ℕ} → Dec (s ≡ t) → Bool
is_same (yes _) = true
is_same (no _) = false

same_text : List ℕ → List ℕ → Bool
unfolding is_same
same_text s t = is_same (Text-discrete s t)

-- `ChecksumChain` at a node with checksum `my_cs`, by `valid` of the request and what the call to the
-- node downstream leaves in the reply, whether or not that call succeeds.
unfoldable pub checksum_chain : State → List ℕ → Bool → ChecksumReply → ChecksumReply
unfolding same_text
checksum_chain s my_cs valid reply =
    let ds_cs = if is_end s then my_cs else reply.chk_sum in
    record { chk_sum = my_cs; valid = valid && same_text ds_cs my_cs }

-- `ChecksumSystem`.
unfoldable pub checksum_system : State → List ℕ → ChecksumReply → ChecksumReply
unfolding same_text
checksum_system s my_cs reply =
    let ds_cs = if is_end s then my_cs else reply.chk_sum in
    record { chk_sum = my_cs; valid = true && same_text ds_cs my_cs }

-- The reply of a chain of nodes, each with its state and its checksum, to a call at its first node.
unfoldable pub ask_chain : List (State × List ℕ) → ChecksumReply
unfolding checksum_chain
ask_chain [] = record { chk_sum = []; valid = false }
ask_chain ((s, cs) ∷ rest) = checksum_chain s cs true (ask_chain rest)

is_same-eq_iff : {s t : List ℕ} (d : Dec (s ≡ t)) → (is_same d ≡ true) ↔ (s ≡ t)
unfolding is_same
is_same-eq_iff (yes e) = (λ _. e, λ _. refl)
is_same-eq_iff (no d) = (λ h. absurd (ground arith), λ e. absurd (d e))

-- The head of a chain of two nodes or more calls the chain valid exactly when the second node has
-- the checksum of the head, whatever the nodes behind it have.
pub checksum_system-valid_iff :
    (a : List ℕ) (s : State) (b : List ℕ) (rest : List (State × List ℕ))
    → ((checksum_system head_state a (ask_chain ((s, b) ∷ rest))).valid ≡ true) ↔ (b ≡ a)
unfolding checksum_system ask_chain checksum_chain is_end same_text
checksum_system-valid_iff a s b rest = is_same-eq_iff (Text-discrete b a)
