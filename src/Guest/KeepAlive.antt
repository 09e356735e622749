-- ===== src/Guest/KeepAlive.antt =====
-- `VideoKeepAlive` of packages/lalah-vm/src/video.rs: the owner, its worker thread, and what they
-- share, as a step relation. DirectShow's part is whether the graph opens, which events it reports
-- and whether it runs again.
pub mod Lifetime
use Prim.Native.String.{String}
use lalah.Base.{
  ℕ, suc, zero, ◌≡◌, Bool, true, false, ◌||◌, Option, none, some, ◌==◌, if◌then◌else◌, Result, ok,
  err,
}

-- The codes of the events after which the graph has halted, from the Windows headers.
pub record EventCodes : Type 0 where
  pub ec_complete : ℕ
  pub ec_errorabort : ℕ
  pub ec_userabort : ℕ

unfoldable pub is_halt : EventCodes → (code : ℕ) → Bool
is_halt ec code = code == ec.ec_complete || code == ec.ec_errorabort || code == ec.ec_userabort

-- Where `worker` stands: in `open_graph`, about to report, in `keep_alive_loop`, between the `Stop` and
-- the `Run` of a restart, behind the loop, or at its end.
pub data Worker : Type 0 where
  unborn opening : Worker
  opened : (name : String) → Worker
  unopened : (error : String) → Worker
  polling restarting leaving finished : Worker

-- Where the owner stands: before the spawn, in `recv`, with the value that `start` has returned, in
-- `shutdown`, joining the thread after an error, or at the end of either.
pub data Owner : Type 0 where
  calling starting holding stopping dropped : Owner
  refusing refused : (error : String) → Owner

-- The flag, the channel of one message, and whether the graph runs.
pub record KeepAlive : Type 0 where
  pub stop : Bool
  pub sent : Option (Result String String)
  pub graph : Bool
  pub worker : Worker
  pub owner : Owner

-- One round of `keep_alive_loop`, with the event that is polled.
unfoldable pub poll : EventCodes → (stop : Bool) → (event : Option ℕ) → Worker
unfolding is_halt
poll ec true event = leaving
poll ec false none = polling
poll ec false (some code) = if is_halt ec code then restarting else polling

-- The graph after that round: a restart begins with `Stop`.
unfoldable pub graph_after : Worker → Bool → Bool
graph_after restarting graph = false
graph_after worker graph = graph

pub data WorkerStep (ec : EventCodes) (σ : KeepAlive) : KeepAlive → Type 0 where
  open_ok :
      (name : String)
      → σ.worker ≡ opening
      → WorkerStep ec σ (record σ { worker = opened name; graph = true })
  open_err :
      (error : String) → σ.worker ≡ opening → WorkerStep ec σ (record σ { worker = unopened error })
  panic : σ.worker ≡ opening → WorkerStep ec σ (record σ { worker = finished })
  send_ok :
      {name : String}
      → σ.worker ≡ opened name
      → WorkerStep ec σ (record σ { worker = polling; sent = some (ok name) })
  send_err :
      {error : String}
      → σ.worker ≡ unopened error
      → WorkerStep ec σ (record σ { worker = finished; sent = some (err error) })
  round :
      (event : Option ℕ)
      → σ.worker ≡ polling
      → WorkerStep ec σ (record σ {
        worker = poll ec σ.stop event;
        graph = graph_after (poll ec σ.stop event) σ.graph;
      })
  run_again :
      (runs : Bool)
      → σ.worker ≡ restarting
      → WorkerStep ec σ (record σ { worker = polling; graph = runs })
  leave : σ.worker ≡ leaving → WorkerStep ec σ (record σ { worker = finished; graph = false })

pub data OwnerStep (σ : KeepAlive) : KeepAlive → Type 0 where
  spawn_err : σ.owner ≡ calling → OwnerStep σ (record σ { owner = refused "spawn video thread" })
  spawn : σ.owner ≡ calling → OwnerStep σ (record σ { owner = starting; worker = opening })
  recv_ok :
      {name : String}
      → σ.owner ≡ starting
      → σ.sent ≡ some (ok name)
      → OwnerStep σ (record σ { owner = holding })
  recv_err :
      {error : String}
      → σ.owner ≡ starting
      → σ.sent ≡ some (err error)
      → OwnerStep σ (record σ { owner = refusing error })
  recv_gone :
      σ.owner ≡ starting
      → σ.sent ≡ none
      → σ.worker ≡ finished
      → OwnerStep σ
          (record σ { owner = refusing "video keep-alive thread exited before reporting" })
  join_err :
      {error : String}
      → σ.owner ≡ refusing error
      → σ.worker ≡ finished
      → OwnerStep σ (record σ { owner = refused error })
  shutdown : σ.owner ≡ holding → OwnerStep σ (record σ { owner = stopping; stop = true })
  join : σ.owner ≡ stopping → σ.worker ≡ finished → OwnerStep σ (record σ { owner = dropped })

pub data KeepAliveStep (ec : EventCodes) (σ : KeepAlive) : KeepAlive → Type 0 where
  work : {τ : KeepAlive} → WorkerStep ec σ τ → KeepAliveStep ec σ τ
  own : {τ : KeepAlive} → OwnerStep σ τ → KeepAliveStep ec σ τ
  graph_halts : KeepAliveStep ec σ (record σ { graph = false })

-- `start` is called.
abbrev pub called : KeepAlive
called = record { stop = false; sent = none; graph = false; worker = unborn; owner = calling }

-- The states that the three can reach.
pub data Lives (ec : EventCodes) : KeepAlive → Type 0 where
  here : Lives ec called
  later : {σ τ : KeepAlive} → Lives ec σ → KeepAliveStep ec σ τ → Lives ec τ

-- The worker goes on alone, in so many steps.
pub data Works (ec : EventCodes) : KeepAlive → (steps : ℕ) → KeepAlive → Type 0 where
  rests : {σ : KeepAlive} → Works ec σ zero σ
  works : {n : ℕ} {σ τ υ : KeepAlive} → WorkerStep ec σ τ → Works ec τ n υ → Works ec σ (suc n) υ
