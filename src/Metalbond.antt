-- ===== src/Metalbond.antt =====
-- metalbond/: the errors of metalbond, the announcement of routes, and the client that metalbond
-- calls when routes come and go.
pub mod Errors
pub mod RouteUtil
pub mod Client
pub mod Frames
