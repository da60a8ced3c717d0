-- ===== src/Cri/Docker.antt =====
-- internal/cri/docker.go, as it uses the Docker client.
pub mod Logs
pub mod Pull
pub mod Containers
