-- ===== src/Client/Requests.antt =====
-- The calls of client/client.go: each makes its request once, and tries it until the leader answers.
use distkv.Prelude.{ℕ, Bool, Option, none, List, if◌then◌else◌, not}
use distkv.Codec.{Bytes}
use distkv.StateMachine.{Command}
use distkv.Client.{Client, Result, put_request, delete_request, conn, try}

-- The requests of kvpb.
pub data Request : Type 0 where
  command_request : Command → Request
  get_request : Bytes → Request
  list_members_request status_request : Request
  add_member_request : ℕ → Bytes → Request
  remove_member_request : ℕ → Request

-- `rpc` sends a request to a connected address, with the time limit of the call.
module _ {W R : Type 0} (dial : Bytes → W → W × Bool) (rpc : Request → Bytes → W → W × Option R)
    (expired : W → Bool) (wait : ℕ → W → W × Bool) where
  unfoldable pub client_put : ℕ → Bytes → Bytes → Client → W → Client × W × Result R
  unfolding put_request try
  client_put fuel key value c w =
      let (c1, command) = put_request key value c in
      try dial (rpc (command_request command)) expired wait fuel c1 w

  unfoldable pub client_delete : ℕ → Bytes → Client → W → Client × W × Result R
  unfolding delete_request try
  client_delete fuel key c w =
      let (c1, command) = delete_request key c in
      try dial (rpc (command_request command)) expired wait fuel c1 w

  unfoldable pub client_get : ℕ → Bytes → Client → W → Client × W × Result R
  unfolding try
  client_get fuel key c w = try dial (rpc (get_request key)) expired wait fuel c w

  unfoldable pub client_list_members : ℕ → Client → W → Client × W × Result R
  unfolding try
  client_list_members fuel c w = try dial (rpc list_members_request) expired wait fuel c w

  unfoldable pub client_add_member : ℕ → ℕ → Bytes → Client → W → Client × W × Result R
  unfolding try
  client_add_member fuel id raft_addr c w =
      try dial (rpc (add_member_request id raft_addr)) expired wait fuel c w

  unfoldable pub client_remove_member : ℕ → ℕ → Client → W → Client × W × Result R
  unfolding try
  client_remove_member fuel id c w = try dial (rpc (remove_member_request id)) expired wait fuel c w

  -- Status asks one address, and is not tried again.
  unfoldable pub client_status : Bytes → Client → W → Client × W × Option R
  unfolding conn
  client_status addr c w =
      let (c1, w1, ok) = conn dial (rpc status_request) expired wait addr c w in
      let (w2, reply) = rpc status_request addr w1 in
      if not ok then (c1, w1, none) else (c1, w2, reply)

unfoldable pub client_addrs : Client → List Bytes
client_addrs c = c.addrs
