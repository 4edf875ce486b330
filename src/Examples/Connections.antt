-- ===== src/Examples/Connections.antt =====
-- Providers, builders, and the requests of a connection.
use fuse_promise.Base.{
  List, str_key, ℕ_key, ◌≡◌, refl, ◌⊎◌, ◌++◌, true, some, none, [], ◌∷◌, lookup, insert, map_values,
  cmp_str, arith,
}
use fuse_promise.Status.{ok}
use fuse_promise.Path.{
  components, split, body, parse_component, collect_parts, join, normalize_relative_path, has_byte,
  parent_path, rsplit_once,
}
use fuse_promise.Node.{file, validate_attr, get}
use fuse_promise.Builder
use fuse_promise.Builder.{PromiseBuilder, add_node, add_file, place_node}
use fuse_promise.Builder.Invariant.{IsTree}
use fuse_promise.Builder.Growth.{new-IsTree, add_node-IsTree}
use fuse_promise.Runtime.{
  Runtime, register_provider, unregister_provider, commit_promise, has_provider, promise, abandon,
}
use fuse_promise.Runtime
use fuse_promise.Runtime.Reads.{
  file_node, plan_provider_read, plan_in_file, capped_length, require_provider,
}
use fuse_promise.Runtime.Reachable.{initial, registers, commits, unregisters, Reachable-IsGuarded}
use fuse_promise.Runtime.Commits.{commit_promise-IsGuarded}
use fuse_promise.Runtime.Providers.{
  IsGuarded, new-IsGuarded, register_provider-IsGuarded, unregister_provider-IsGuarded,
  unregister_provider-unplanned,
}
use fuse_promise.RuntimeDir.{Environment, missing, default_control_socket_path}
use fuse_promise.Ipc.Message.{
  IoResult, done, fail, ErrorKind, ErrorCode, ProviderReadResponse, from_body, validate,
  validate_nonzero,
}
use fuse_promise.Ipc.State.{
  IpcState, PendingRead, owns, answer_pending, complete_provider_read, disconnect_provider_id,
  register_provider_route,
}
use fuse_promise.Ipc.Session.{
  respond, error, new_session, build, builder_of, handle_promise_commit, handle_unregister, run,
  handle_client, handle_request, serve_request, handle_register,
}
use fuse_promise.Ipc.Report.{from_runtime_with_mount}
use fuse_promise.Ipc.Delivery.{IsDelivery, complete_provider_read-IsDelivery}
use fuse_promise.Ipc.Disconnect.{IsGone, disconnect_provider_id-IsGone, handle_client-IsGone}
use fuse_promise.Ipc.Guards.{
  IsOwner, handle_client_early, handle_unregister-IsOwner, handle_promise_commit-IsOwner,
}
use fuse_promise.Ipc.Commits.{builder_of-IsTree, builder_of-subtree_nodes}
use fuse_promise.Node.{PromiseNode}
use fuse_promise.Node.Subtree.{subtree_nodes}
use fuse_promise.Builder.{root_node, finish}
use fuse_promise.Examples.Data.{
  name_a, promise_p, attr, two_providers, plan, read_response, state, commit, greeting,
  registration, inquiry, no_materialize,
}

abbrev builder_a : PromiseBuilder
builder_a = place_node (Builder.new 1) name_a attr name_a file

one_provider-IsGuarded : IsGuarded (register_provider Runtime.new).0
one_provider-IsGuarded = register_provider-IsGuarded Runtime.new new-IsGuarded

Reachable_example :
    IsGuarded
      (unregister_provider 1 (commit_promise builder_a (register_provider Runtime.new).0).0).0
Reachable_example =
    Reachable-IsGuarded
      (unregister_provider 1 (commit_promise builder_a (register_provider Runtime.new).0).0).0
      (unregisters 1 _ (commits builder_a _ (registers Runtime.new initial)))

unregister_provider_example : IsGuarded (unregister_provider 1 (register_provider Runtime.new).0).0
unregister_provider_example =
    unregister_provider-IsGuarded 1 (register_provider Runtime.new).0 one_provider-IsGuarded

commit_promise_example : IsGuarded (commit_promise builder_a (register_provider Runtime.new).0).0
commit_promise_example =
    commit_promise-IsGuarded builder_a (register_provider Runtime.new).0 one_provider-IsGuarded

planned_without_2 :
    plan_provider_read (unregister_provider 2 two_providers).0 promise_p name_a 5 3 ≡ ok plan
unfolding plan_provider_read plan_in_file capped_length require_provider has_provider file_node
    promise normalize_relative_path components split body parse_component collect_parts join
    has_byte cmp_str lookup insert unregister_provider get map_values abandon
planned_without_2 = refl

unplanned_example : ¬ (plan.provider_id ≡ 2)
unplanned_example =
    unregister_provider-unplanned 2 two_providers promise_p name_a 5 3 plan planned_without_2

added : add_node (Builder.new 1) name_a attr name_a file ≡ ok builder_a
unfolding add_node validate_attr normalize_relative_path components split body parse_component
    collect_parts join has_byte cmp_str lookup Builder.new parent_path rsplit_once
added = refl

add_node_example : IsTree builder_a
add_node_example =
    add_node-IsTree (Builder.new 1) builder_a name_a attr name_a file (new-IsTree 1) added

built : builder_of commit 1 ≡ ok builder_a
unfolding builder_of build add_file add_node validate_attr normalize_relative_path components split
    body parse_component collect_parts join has_byte cmp_str lookup Builder.new parent_path
    rsplit_once
built = refl

builder_of_example : IsTree builder_a
builder_of_example = builder_of-IsTree commit 1 builder_a built

root_placed : lookup [] builder_a.nodes ≡ some root_node
unfolding place_node Builder.new insert lookup cmp_str
root_placed = refl

root_normal : normalize_relative_path [] ≡ ok []
unfolding normalize_relative_path has_byte collect_parts components split body parse_component join
    cmp_str
root_normal = refl

builder_of_walk_example :
    (rest : List PromiseNode) × (subtree_nodes (finish builder_a promise_p) []
      ≡ some (ok (root_node ∷ rest)))
builder_of_walk_example =
    builder_of-subtree_nodes commit 1 builder_a promise_p [] [] root_node built root_normal
      root_placed

handle_unregister_example :
    IsOwner state 1 9
    ⊎ ((code : ErrorCode) × (handle_unregister 1 9 new_session state
          ≡ (state, new_session, respond (error code))))
handle_unregister_example = handle_unregister-IsOwner 1 9 new_session state

handle_promise_commit_example :
    IsOwner state 1 9
    ⊎ ((code : ErrorCode) × (handle_promise_commit commit state ≡ (state, respond (error code))))
handle_promise_commit_example = handle_promise_commit-IsOwner commit state

disconnect_provider_id_example : IsGone 1 (disconnect_provider_id 1 state)
disconnect_provider_id_example = disconnect_provider_id-IsGone 1 state (omega arith)

abbrev answered : IpcState
answered = (complete_provider_read (1 ∷ []) read_response state).0

accepted : complete_provider_read (1 ∷ []) read_response state ≡ (answered, done tt)
unfolding complete_provider_read answer_pending lookup from_body validate validate_nonzero
accepted = refl

complete_provider_read_example :
    (pending : PendingRead) × (r : IoResult ProviderReadResponse) × (lookup 7 state.pending_reads
      ≡ some pending)
    × (lookup 7 answered.pending_reads ≡ none)
    × (answered.sent ≡ state.sent ++ ((7, r) ∷ []))
    × (answered.runtime ≡ state.runtime)
    × (((r ≡ done read_response) × IsDelivery (1 ∷ []) pending read_response)
        ⊎ ((e : ErrorKind) × (r ≡ fail e)))
complete_provider_read_example =
    complete_provider_read-IsDelivery (1 ∷ []) read_response state answered accepted

-- No runtime directory is set.
abbrev env : Environment
env = record { xdg_runtime_dir = none; stat = λ path. missing; uid = 1000 }

early_example : handle_client env no_materialize (registration ∷ inquiry ∷ []) state ≡ state
early_example =
    handle_client_early env no_materialize (registration ∷ inquiry ∷ []) state (refl, (refl, tt))

registered_2 :
    owns 2
      (run env no_materialize
        (greeting ∷ registration ∷ inquiry ∷ [])
        new_session
        state).1.registered
    ≡ true
unfolding owns run handle_request serve_request handle_register new_session register_provider
    from_runtime_with_mount register_provider_route default_control_socket_path
registered_2 = refl

handle_client_example :
    IsGone 2 (handle_client env no_materialize (greeting ∷ registration ∷ inquiry ∷ []) state)
handle_client_example =
    handle_client-IsGone env no_materialize (greeting ∷ registration ∷ inquiry ∷ []) state 2
      (omega arith) registered_2
