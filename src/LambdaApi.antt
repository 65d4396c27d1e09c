-- ===== src/LambdaApi.antt =====
-- lambda-extensions/lambdaapi/: the client of the Lambda Extensions, Telemetry and Logs APIs.
pub mod HttpClient
pub mod Calls
pub mod Identity
