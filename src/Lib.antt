-- ===== src/Lib.antt =====
-- The connected vehicle platform: a service on a vehicle's computer that authenticates with a
-- cloud, connects to it and publishes samples of the vehicle's state. The code is C++ under src/ and
-- include/connected_vehicle_platform/.
--
-- The parts and how they work together. `ConnectivityService::start` asks an `AuthClient` for a
-- token, connects an `IMqttClient` and starts a worker thread. The worker's loop renews the token
-- through the `AuthClient`, reconnects the client, and publishes through a `TelemetryManager`, which
-- makes a sample and sends it through its own pointer to a client, or queues it. A `Logger` takes
-- lines from all of this. Two classes implement `IMqttClient`: `MqttClient`, over an `IMqttBackend`
-- (which by default is the one for the Paho library), and `SomeipClient`, over a socket. src/main.cpp
-- puts a service over a `SomeipClient` together, with a listener that stands for the cloud.
--
-- How the code becomes definitions. A class is a record of its fields, and a method is a function
-- from the object and the world to its answer, the object and the world after it
-- (`Prelude.Actions.Action`). The world `W` is unknown: what other objects, the operating system and
-- the network keep is in it. An object behind an interface keeps its fields in the world too, so that
-- two pointers to one client are one client. A null pointer is `none`, an exception that a library
-- throws is `none`, a `std::string` is the list of its bytes. Where the code takes a mutex for the
-- whole of a method, a call of the method is one step.
--
--   Prelude.antt, Prelude/: numbers, lists, text and its readers, decimal notation, actions, and
--     families of threads.
--   Platform.antt: clocks, sleeping, the console and files, as parameters.
--   Sockets.antt: the socket calls, as parameters, and which descriptors they open and close.
--   AuthClient.antt: src/AuthClient/auth_client.cpp (`authenticate`, `refreshToken`, `isTokenValid`,
--     `clearToken`). A time point is a number of nanoseconds; the sum that `authenticate` stores has
--     64 bits and wraps around, where the signed overflow of the source is undefined.
--   AuthSession.antt: src/auth/auth_session.cpp (`authenticate` with its retries).
--   MqttClient.antt, MqttClient/Interface.antt: src/MqttClient/mqtt_client.cpp, class `MqttClient`,
--     and the interfaces of include/connected_vehicle_platform/mqtt_client.hpp.
--   MqttClient/Paho.antt: src/MqttClient/mqtt_client.cpp, class `PahoMqttBackend`, over the library.
--   SomeipClient.antt, SomeipClient/Frame.antt: src/SomeipClient/someip_client.cpp and the bytes of a
--     frame, for a machine of either byte order.
--   TelemetryManager.antt, TelemetryManager/Sample.antt:
--     src/TelemetryManager/telemetry_manager.cpp (`publishSample`, `queueMessage`, `flushQueue`,
--     `generateSample`, `serialize`).
--   TelemetryManager/Threads.antt: the same code as steps of any number of threads in `publishSample`,
--     `queueMessage`, `flushQueue` and `pendingCount` of one manager, which share the queue and the
--     client. What has been made, accepted, lost, queued and taken from the queue is kept beside it.
--   Logger.antt: src/Logger/logger.cpp.
--   ConnectivityService.antt: src/ConnectivityService/connectivity_service.cpp (`start`, `stop`,
--     `publishTelemetry`, `runLoop`). `round` is one iteration of the loop. `start_with` is
--     `start` with what the worker does before Publishing is stored; `start` is the case of nothing.
--   ConnectivityService/Threads.antt: the same code as steps of two threads, the owner's in `start` and
--     `stop` and the worker's in `runLoop`, on the shared fields alone; in
--     ConnectivityService/Threads/Race.antt and Hang.antt with a second thread in `stop`, and in
--     ConnectivityService/Threads/Callers.antt with a family of threads in `start` and `stop`.
--   Demo.antt, Demo/CloudListener.antt, Demo/Main.antt: src/main.cpp (`DemoAuthBackend`,
--     `runCloudListener`, `main`). Demo/Delivery.antt follows a payload from the client to the listener,
--     and Demo/Delivery/Round.antt the first iteration of the worker that `main` has started.
--     Demo/Threads.antt is `main` with the worker beside the listener's thread, step by step.
--   Vehicle.antt: src/vehicle.cpp. ConnectivityRuntime.antt: src/connectivity/connectivity_runtime.cpp.
--   AdaptiveServices.antt: src/mqtt/mqtt_gateway.cpp and src/services/.
--   Bindings.antt, Bindings/: generated/, the CommonAPI bindings of the three interfaces under fidl/.
--     Bindings/CommonApi.antt is the library as a parameter, with the text that the generator repeats
--     for each method; Connectivity, Diagnostics and Vehicle are the interfaces (stub, default stub,
--     stub adapter, proxies, registration); Remote puts the five methods under one type;
--     Deployment is what fidl/ says of them. What the library documents of calls and of events is the
--     hypothesis `Bus` (Bindings/Bus.antt) and `EventBus` (Bindings/Vehicle/Events.antt).
--   Locks.antt, Locks/: the mutexes of all classes. Locks/Methods.antt keeps of each method only the
--     sections under a lock, the branches and the loops, and `join`; a thread waits where another one
--     holds the mutex that it comes to, and for the end of the thread that it joins.
--
-- The child modules of a part hold its proofs, named for what they are about, and a module Tests with
-- runs at concrete inputs. A module Fake is a world for those runs.
--
-- Fuel and bounds. The retry loop of `AuthSession::authenticate` runs on fuel equal to `max_retries`
-- (0 for a negative one), which is enough since it counts its attempts from 0 up to that number. The
-- digits of a number n are made on fuel n + 1, which is enough since each step divides by 10. The loop
-- of `runLoop` has no bound of its own: it takes a list with one entry for each iteration that starts
-- before the stop request is seen, each entry being what other threads do before that iteration. A
-- header of a frame holds the payload's length modulo 2^32; ports and identifiers are 16-bit numbers
-- where a statement needs it.
--
-- Not modelled: calls of `start` and `stop` that overlap, but for a `stop` during a `start`; an
-- iteration of the worker during a caller's `publishTelemetry`, but for the steps of both in the
-- manager; the request of a stop among the locks, where a worker's loop may end at any time;
-- clients and backends of other classes among the locks; a null `logger`, which the code does not
-- test for; exceptions of the file system and of memory; signals, SIGPIPE among them; the copies of
-- one sample in memory; the handlers of selective events under generated/, which are empty; the
-- build files, the configuration files, which the program does not read, and the tests.
pub mod Prelude
pub mod Platform
pub mod Sockets
pub mod AuthClient
pub mod AuthSession
pub mod MqttClient
pub mod SomeipClient
pub mod TelemetryManager
pub mod Logger
pub mod ConnectivityService
pub mod Demo
pub mod Vehicle
pub mod ConnectivityRuntime
pub mod AdaptiveServices
pub mod Bindings
pub mod Locks
