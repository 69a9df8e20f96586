-- ===== src/Connector/Start.antt =====
-- `start` of the connectors over nng, but for `AsyncPipelinePush` (src/o3ds: async_pair.cpp,
-- async_request.cpp, async_subscriber.cpp, async_publisher.cpp, async_pipeline.cpp, pair.cpp,
-- pipeline.cpp, request.cpp, publisher.cpp, subscriber.cpp). A code for each call, in their order.
use Prim.Native.String.{String}
use open3dstream.Base.{Bool}
use open3dstream.Connector.{Code}
use open3dstream.Connector.Endpoint.{
  pair1, push0, pull0, req0, rep0, sub0, pub0, Endpoint, open_socket, alloc_aio, same_endpoint,
  wait_started, only_started, only_wait, answer_true, step, noted_step,
}

module _ (strerror : Code → String) where
  -- The asynchronous connectors: the socket, the asynchronous operation, and the connection.
  unfoldable pub async_pair_client : Code → Code → Code → Endpoint → Bool × Endpoint
  unfolding noted_step
  async_pair_client opened allocated dialled =
      noted_step strerror "Async pair client connection" opened (open_socket pair1) (
        noted_step strerror "Async pair client connecting aio alloc" allocated alloc_aio (
          noted_step strerror "Async pair client dial connecting" dialled same_endpoint
            wait_started))

  unfoldable pub async_pair_server : Code → Code → Code → Endpoint → Bool × Endpoint
  unfolding noted_step
  async_pair_server opened allocated listens =
      noted_step strerror "Async pair server connecting" opened (open_socket pair1) (
        noted_step strerror "Async pair Server aio alloc" allocated alloc_aio
          (noted_step strerror "Async pair server listening" listens same_endpoint wait_started))

  unfoldable pub async_request : Code → Code → Code → Endpoint → Bool × Endpoint
  unfolding noted_step
  async_request opened allocated dialled =
      noted_step strerror "Creating request socket" opened (open_socket req0) (
        noted_step strerror "Creating request socket aio" allocated alloc_aio
          (noted_step strerror "Conecting request socket" dialled same_endpoint wait_started))

  unfoldable pub async_reply : Code → Code → Code → Endpoint → Bool × Endpoint
  unfolding noted_step
  async_reply opened allocated listens =
      noted_step strerror "Creating reply socket" opened (open_socket req0) (
        noted_step strerror "Creating reply socket aio" allocated alloc_aio
          (noted_step strerror "Listening on reply socket" listens same_endpoint wait_started))

  unfoldable pub async_publisher : Code → Code → Endpoint → Bool × Endpoint
  unfolding noted_step
  async_publisher opened listens =
      noted_step strerror "Creating publish scocket" opened (open_socket pub0)
        (noted_step strerror "Could not listen" listens same_endpoint only_started)

  -- The blocking connectors: the socket, and the connection.
  unfoldable pub client_pair : Code → Code → Endpoint → Bool × Endpoint
  unfolding noted_step
  client_pair opened dialled =
      noted_step strerror "Could not create pair socket for dial" opened (open_socket pair1)
        (noted_step strerror "Could not dial using pair" dialled same_endpoint answer_true)

  unfoldable pub server_pair : Code → Code → Endpoint → Bool × Endpoint
  unfolding noted_step
  server_pair opened listens =
      noted_step strerror "Could not create pair socket for listen" opened (open_socket pair1) (
        noted_step strerror "Could not listen on pair connection" listens same_endpoint answer_true)

  unfoldable pub pipeline_push : Code → Code → Endpoint → Bool × Endpoint
  unfolding noted_step
  pipeline_push opened dialled =
      noted_step strerror "Could not create push socket for dial" opened (open_socket push0)
        (noted_step strerror "Could not dial using push" dialled same_endpoint answer_true)

  unfoldable pub pipeline_pull : Code → Code → Endpoint → Bool × Endpoint
  unfolding noted_step
  pipeline_pull opened listens =
      noted_step strerror "Could not create pull socket for listen" opened (open_socket pull0) (
        noted_step strerror "Could not listen on pull connection" listens same_endpoint answer_true)

  unfoldable pub request : Code → Code → Endpoint → Bool × Endpoint
  unfolding noted_step
  request opened dialled =
      noted_step strerror "Could not create pair socket for dial" opened (open_socket req0)
        (noted_step strerror "Could not dial using pair" dialled same_endpoint answer_true)

  unfoldable pub reply : Code → Code → Endpoint → Bool × Endpoint
  unfolding noted_step
  reply opened listens =
      noted_step strerror "Could not create pair socket for listen" opened (open_socket rep0) (
        noted_step strerror "Could not listen on pair connection" listens same_endpoint answer_true)

  unfoldable pub publisher : Code → Code → Endpoint → Bool × Endpoint
  unfolding noted_step
  publisher opened listens =
      noted_step strerror "Could not open socket" opened (open_socket pub0)
        (noted_step strerror "Could not listen" listens same_endpoint answer_true)

-- Those that note no error.
unfoldable pub async_pipeline_pull : Code → Code → Code → Endpoint → Bool × Endpoint
unfolding step
async_pipeline_pull opened allocated listens =
    step opened (open_socket pull0)
      (step allocated alloc_aio (step listens same_endpoint only_wait))

unfoldable pub subscriber : Code → Code → Code → Endpoint → Bool × Endpoint
unfolding step
subscriber opened dialled set_all =
    step opened (open_socket sub0)
      (step dialled same_endpoint (step set_all same_endpoint answer_true))
