-- ===== src/Raft/Network.antt =====
-- crates/vraftls-raft/src/network.rs: the calls of one node on another over HTTP. The client is
-- `send`, which gives what comes back for an address and a body.
use vraftls.Prelude.{
  ℕ, ◌<◌, ◌≤◌, ◌≡◌, refl, Bool, ◌&&◌, Option, none, some, List, [], ◌++◌, Text, codes, leb, ltb,
  arith, if◌then◌else◌,
}
use vraftls.Core.Types.{NodeId}
use vraftls.Raft.Types.{OpenRaft, Entry}
use vraftls.Raft.Storage.{Serde, IsSerde, Formats}

pub record VRaftNode : Type 0 where
  pub addr : Text

pub record HttpRaftNetwork : Type 0 where
  pub target : NodeId
  pub target_addr : Text

unfoldable pub new_client : NodeId → VRaftNode → HttpRaftNetwork
new_client target node = record { target = target; target_addr = node.addr }

unfoldable pub url : Text → HttpRaftNetwork → Text
url endpoint n = codes "http://" ++ (n.target_addr ++ (codes "/raft/" ++ endpoint))

-- what comes back: nothing, or a status and the body, if it can be read
pub data Reply : Type 0 where
  lost : Reply
  replied : ℕ → Option Text → Reply

-- why a call failed, each an `RPCError::Network`
pub data NetworkError : Type 0 where
  not_sent bad_body : NetworkError
  http : ℕ → Text → NetworkError

pub data RpcResult (A : Type 0) : Type 0 where
  ok : A → RpcResult A
  network : NetworkError → RpcResult A

unfoldable pub is_success : ℕ → Bool
is_success status = leb 200 status && ltb status 300

unfoldable pub unwrap_or_default : Option Text → Text
unwrap_or_default none = []
unwrap_or_default (some text) = text

-- the reply, read
unfoldable pub read_reply : {Resp : Type 0} → Serde Resp → Reply → RpcResult Resp
unfolding is_success unwrap_or_default
read_reply out lost = network not_sent
read_reply out (replied status body) =
    if is_success status
    then elim body [
      | none ↦ network bad_body
      | some text ↦ elim (out.from_slice text) [ none ↦ network bad_body | some resp ↦ ok resp ]
    ]
    else network (http status (unwrap_or_default body))

module _ (send : Text → Text → Reply) where
  unfoldable pub post :
      {Req Resp : Type 0} → Serde Req → Serde Resp → Text → Req → HttpRaftNetwork → RpcResult Resp
  unfolding url read_reply
  post into out endpoint request n = elim (into.to_vec request) [
    | none ↦ network not_sent
    | some body ↦ read_reply out (send (url endpoint n) body)
  ]

  unfoldable pub append_entries :
      {Req Resp : Type 0} → Serde Req → Serde Resp → Req → HttpRaftNetwork → RpcResult Resp
  unfolding post
  append_entries into out = post into out (codes "append_entries")

  unfoldable pub install_snapshot :
      {Req Resp : Type 0} → Serde Req → Serde Resp → Req → HttpRaftNetwork → RpcResult Resp
  unfolding post
  install_snapshot into out = post into out (codes "install_snapshot")

  unfoldable pub send_vote :
      {Req Resp : Type 0} → Serde Req → Serde Resp → Req → HttpRaftNetwork → RpcResult Resp
  unfolding post
  send_vote into out = post into out (codes "vote")

-- `AppendEntriesRequest` of OpenRaft, and the wrapper with the same fields
pub record AppendEntriesRequest (o : OpenRaft) (f : Formats o) : Type 0 where
  pub vote : f.Vote
  pub prev_log_id : Option o.LogId
  pub entries : List (Entry o)
  pub leader_commit : Option o.LogId

pub record AppendEntriesRequestWrapper (o : OpenRaft) (f : Formats o) : Type 0 where
  pub vote : f.Vote
  pub prev_log_id : Option o.LogId
  pub entries : List (Entry o)
  pub leader_commit : Option o.LogId

module _ (o : OpenRaft) (f : Formats o) where
  unfoldable pub wrap : AppendEntriesRequest o f → AppendEntriesRequestWrapper o f
  wrap req = record {
    vote = req.vote;
    prev_log_id = req.prev_log_id;
    entries = req.entries;
    leader_commit = req.leader_commit;
  }

  unfoldable pub unwrap : AppendEntriesRequestWrapper o f → AppendEntriesRequest o f
  unwrap wrapper = record {
    vote = wrapper.vote;
    prev_log_id = wrapper.prev_log_id;
    entries = wrapper.entries;
    leader_commit = wrapper.leader_commit;
  }

  -- The two conversions undo one another.
  unwrap-wrap :
      (req : AppendEntriesRequest o f) (wrapper : AppendEntriesRequestWrapper o f)
      → (unwrap (wrap req) ≡ req) × (wrap (unwrap wrapper) ≡ wrapper)
  unfolding unwrap wrap
  unwrap-wrap req wrapper = (refl, refl)

module _ {Req Resp : Type 0} (into : Serde Req) (out : Serde Resp) where
  -- A node that answers requests by a function: it reads the body and writes its answer. Whoever
  -- posts a request to it gets the function's value, whatever the path.
  post-serve :
      (send : Text → Text → Reply) (serve : Req → Resp) (endpoint : Text) (request : Req)
      (n : HttpRaftNetwork) (body answer : Text)
      → IsSerde into
      → IsSerde out
      → ((address sent : Text) (req : Req) (written : Text)
          → into.from_slice sent ≡ some req
          → out.to_vec (serve req) ≡ some written
          → send address sent ≡ replied 200 (some written))
      → into.to_vec request ≡ some body
      → out.to_vec (serve request) ≡ some answer
      → post send into out endpoint request n ≡ ok (serve request)
  unfolding post read_reply is_success
  post-serve send serve endpoint request n body answer reads writes served asked written =
      let reply = served (url endpoint n) body request answer (reads request body asked) written in
      rw (asked, reply, post, read_reply) (rw (writes (serve request) answer written) refl)

  -- A value comes only from a reply with a status of success, whose body reads as the value.
  read_reply-ok :
      (reply : Reply) (resp : Resp)
      → read_reply out reply ≡ ok resp
      → (status : ℕ) × (text : Text) × (reply ≡ replied status (some text))
        × (200 ≤ status)
        × (status < 300)
        × (out.from_slice text ≡ some resp)
  unfolding read_reply is_success
  read_reply-ok lost resp h = absurd (cc)
  read_reply-ok (replied status none) resp h = absurd (ground arith)
  read_reply-ok (replied status (some text)) resp h =
      (status, text, refl, ground (arith, h), ground (arith, h), ground (arith, h))
